-- ===== src/App/Text/FileType.antt =====
-- `getFileType`: which part of a name decides.
use cloud_storge_system.Common.{
  ℕ, ◌≡◌, refl, Bytes, bytes, none, some, [], ◌∷◌, ◌++◌, map, to_lower, NoByte, arith,
}
use cloud_storge_system.App.Text.{extension, type_of_extension, get_file_type}

extension-plain : (e : Bytes) → NoByte 46 e → extension e ≡ none
unfolding extension
extension-plain [] h = refl
extension-plain (c ∷ cs) h = ground (arith, h.0, extension-plain cs h.1)

extension-append : (stem e : Bytes) → NoByte 46 e → extension (stem ++ 46 ∷ e) ≡ some e
unfolding extension
extension-append [] e h = rw (extension-plain e h) refl
extension-append (c ∷ cs) e h = rw (extension-append cs e h) (ground arith)

-- For an extension that is not empty and has no dot: the type of a name with it is that of the
-- extension in lower case, whatever stands before; a name without a dot, and one that ends in a
-- dot, have the type "unknown".
pub get_file_type-extension :
    (stem : Bytes) (c : ℕ) (e : Bytes)
    → NoByte 46 (c ∷ e)
    → (get_file_type (stem ++ 46 ∷ c ∷ e) ≡ type_of_extension (map to_lower (c ∷ e)))
      × (get_file_type (c ∷ e) ≡ bytes "unknown")
      × (get_file_type (stem ++ 46 ∷ []) ≡ bytes "unknown")
unfolding get_file_type
get_file_type-extension stem c e h = (
  rw (extension-append stem (c ∷ e) h) refl,
  rw (extension-plain (c ∷ e) h) refl,
  rw (extension-append stem [] tt) refl,
)
