-- ===== src/Dispatch/Sharing/Unresolved.antt =====
-- The methods on one group, for a query that means no group.
use shmark.Base.{ℕ, Text, Bool, ◌≡◌, Option, ◌⊎◌}
use shmark.Errors.{Error, Result, err}
use shmark.Json.{Json}
use shmark.Device.{Suite}
use shmark.Groups
use shmark.Shares.{Node, ShareRecord}
use shmark.Shares.Create.{Sources}
use shmark.Dispatch.{AppState}
use shmark.Dispatch.Sharing.{
  in_group, groups_share_code, share_create, share_get_bytes, share_download,
}

module _ (query : Text) (a : AppState) (e : Error)
    (failed : Groups.resolve query a.groups ≡ err e) where
  -- No share code is given out.
  unresolved_share_code :
      (parse_ns : Text → Text ⊎ Text) (opened : Text → Result Bool)
      (share : Bool → Text → Result Text) (read_only : Bool)
      → groups_share_code parse_ns opened share query read_only a ≡ err e
  unfolding groups_share_code
  unresolved_share_code parse_ns opened share read_only = rw failed

  module _ {S : Type 0} (node : Node S) (k : Suite) (json : Json ShareRecord) (sources : Sources S)
      (s : S) where
    -- Creating, reading and downloading fail with the same error, and leave the node as it is.
    unresolved_untouched :
        (uuid path share_id : Text) (now item : ℕ) (name description dest : Option Text)
        (base64 : Text → Text) (current_dir : Result Text)
        → (share_create node k json sources uuid now query path name description a s ≡ (err e, s))
          × (share_get_bytes node k json sources base64 query share_id item a s ≡ (err e, s))
          × (share_download node k json sources current_dir query share_id dest a s ≡ (err e, s))
    unfolding share_create share_get_bytes share_download in_group
    unresolved_untouched uuid path share_id now item name description dest base64 current_dir =
        (rw failed, rw failed, rw failed)
