-- ===== src/App/Json.antt =====
-- JSON values, as the handlers of application/http_upload.cc build and read them with
-- nlohmann::json. Its parser and printer are parameters (App/World.antt).
use cloud_storge_system.Common.{ℕ, Bytes, Bool, Option, none, some, if◌then◌else◌, eqb}
use cloud_storge_system.App.Number.{ℤ}

mutual
  pub data Json : Type 0 where
    null : Json
    bool : Bool → Json
    int : ℤ → Json
    nat : ℕ → Json
    str : Bytes → Json
    arr : Items → Json
    obj : Members → Json

  pub data Items : Type 0 where
    nil : Items
    cons : Json → Items → Items

  pub data Members : Type 0 where
    end : Members
    member : Bytes → Json → Members → Members

-- `contains(key)` and the value of a key.
unfoldable pub find_member : Bytes → Members → Option Json
find_member key end = none
find_member key (member k v ms) = if eqb k key then some v else find_member key ms

unfoldable pub get_member : Bytes → Json → Option Json
unfolding find_member
get_member key (obj ms) = find_member key ms
get_member key _ = none

-- `push_back` on an array.
unfoldable pub push_back : Items → Json → Items
push_back nil j = cons j nil
push_back (cons x xs) j = cons x (push_back xs j)
