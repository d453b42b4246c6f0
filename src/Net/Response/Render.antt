-- ===== src/Net/Response/Render.antt =====
-- The text of a response, and that `appendToBuffer` writes it.
use cloud_storge_system.Common.{
  Bytes, bytes, Option, List, [], ◌∷◌, ◌++◌, refl, sym, ap, ◌∙◌, if◌then◌else◌, to_string,
  append_assoc, append-nil,
}
use mathlib.Core.Path.{subst⁻¹}
use cloud_storge_system.Net.Buffer.{Buffer, append, content, ◌>>=◌}
use cloud_storge_system.Net.Buffer.Regions.{Inv}
use cloud_storge_system.Net.Buffer.Refines.{Yields, append-Yields}
use cloud_storge_system.Net.Response.{Response, append_headers, append_to_buffer}

-- The header lines.
pub render_headers : List (Bytes × Bytes) → Bytes
render_headers [] = []
render_headers ((key, value) ∷ headers) =
    key ++ (bytes ": " ++ (value ++ (bytes "\r\n" ++ render_headers headers)))

-- Status line, the line of the close flag, header lines, empty line, body.
pub render : Response → Bytes
render r =
    (bytes "HTTP/1.1 " ++ to_string r.status_code ++ bytes " ")
    ++ (r.status_message
        ++ (bytes "\r\n"
            ++ ((if r.close_connection
                  then bytes "Connection: close\r\n"
                  else bytes "Connection: Keep-Alive\r\n")
                ++ (render_headers r.headers ++ (bytes "\r\n" ++ r.body)))))

-- A step that adds `text`, before a rest that adds `more`.
then_append :
    (text more : Bytes) (b : Buffer) (k : Buffer → Option Buffer)
    → Inv b
    → ((b' : Buffer) → Inv b' → Yields (k b') (content b' ++ more))
    → Yields (append text b >>= k) (content b ++ (text ++ more))
then_append text more b k v rest =
    let (b', e, v', c) = append-Yields text b v in
    let (b'', e', v'', c') = rest b' v' in
    (
      b'',
      ap (λ o. o >>= k) e ∙ e',
      v'',
      c' ∙ ap (λ s. s ++ more) c ∙ append_assoc (content b) text more,
    )

append_headers-Yields :
    (headers : List (Bytes × Bytes)) (b : Buffer)
    → Inv b
    → Yields (append_headers headers b) (content b ++ render_headers headers)
unfolding append_headers render_headers
append_headers-Yields [] b v = (b, refl, v, sym (append-nil (content b)))
append_headers-Yields ((key, value) ∷ headers) b v =
    let last = render_headers headers in
    then_append key (bytes ": " ++ (value ++ (bytes "\r\n" ++ last))) b _ v λ b1 v1.
      then_append (bytes ": ") (value ++ (bytes "\r\n" ++ last)) b1 _ v1 λ b2 v2.
        then_append value (bytes "\r\n" ++ last) b2 _ v2 λ b3 v3.
          then_append (bytes "\r\n") last b3 _ v3 λ b4 v4. append_headers-Yields headers b4 v4

bind_Yields :
    (o : Option Buffer) (c more : Bytes) (k : Buffer → Option Buffer)
    → Yields o c
    → ((b' : Buffer) → Inv b' → Yields (k b') (content b' ++ more))
    → Yields (o >>= k) (c ++ more)
bind_Yields o c more k (b, e, v, same) rest =
    let (b'', e', v'', c') = rest b v in
    (b'', ap (λ o. o >>= k) e ∙ e', v'', c' ∙ ap (λ s. s ++ more) same)

-- `appendToBuffer` adds the text of the response to whatever a well-formed buffer holds, and trips
-- no assert.
pub append_to_buffer-Yields :
    (r : Response) (b : Buffer) → Inv b → Yields (append_to_buffer r b) (content b ++ render r)
unfolding append_to_buffer render
append_to_buffer-Yields r b v = then_append _ _ b _ v λ b1 v1.
    then_append r.status_message _ b1 _ v1 λ b2 v2. then_append (bytes "\r\n") _ b2 _ v2 λ b3 v3.
      then_append _ _ b3 _ v3 λ b4 v4.
        subst⁻¹ (Yields _) (sym (append_assoc (content b4) (render_headers r.headers) _)) (
          bind_Yields _ _ _ _ (append_headers-Yields r.headers b4 v4)
            λ b5 v5. then_append (bytes "\r\n") r.body b5 _ v5 λ b6 v6. append-Yields r.body b6 v6)
