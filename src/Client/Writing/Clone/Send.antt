-- ===== src/Client/Writing/Clone/Send.antt =====
-- client/_writing.py: `clone` over what sends a batch of ranges.
use xrdclient.Prelude.{
  ℕ, ◌+◌, Bool, false, not, List, [], ◌∷◌, Option, pos, ◌==◌, if◌then◌else◌, max,
}
use xrdclient.Errors.{Bytes, Fault, Result, ok, err, server_error, value_error, unsupported}
use xrdclient.Exec.{Exec, pure, lift, refuse_if, ◌>>=◌, ◌>>◌}
use xrdclient.Wire.Requests.File.{CloneItem}
use xrdclient.Client.Vector.{clone_extent}
use xrdclient.Client.Writing.{
  Handle, unsupported_code, invalid_request, on_server, invalidate, no_checkpoint,
}
use xrdclient.Client.Writing.Clone.{CloneRange, clone_items, slices_from, clone_batches}

-- what `_send_clone` makes of the server's refusal
abbrev pub refused_clone : Fault → Fault
refused_clone (server_error (pos code) message path) =
    if code == invalid_request
    then unsupported unsupported_code
    else server_error (pos code) message path
refused_clone e = e

module _ {S : Type 0} where
  abbrev pub answered : Result (Unit {0}) × S → Result (Unit {0}) × S
  answered (ok done, s) = (ok done, s)
  answered (err e, s) = (err (refused_clone e), s)

  -- `if total: self._invalidate(high)`
  abbrev pub invalidate_if : ℕ × ℕ → Exec (Handle S) (Unit {0})
  invalidate_if (total, high) f = if total == 0 then (ok tt, f) else invalidate false high f

module _ {S : Type 0} (send : List CloneItem → Exec S (Unit {0})) where
  -- `_send_clone`
  abbrev pub send_clone : List CloneItem → Exec S (Unit {0})
  send_clone batch s = answered (send batch s)

  -- the loop of `clone`
  unfoldable pub clone_all : List (List CloneItem) → ℕ × ℕ → Exec S (ℕ × ℕ)
  unfolding clone_extent
  clone_all [] sums = pure sums
  clone_all (batch ∷ batches) (total, high) =
      let (copied, extent) = clone_extent batch in
      send_clone batch >> clone_all batches (total + copied, max high extent)

  -- `clone`, on the session that the source is open on or on another
  unfoldable pub clone : Bool → Bytes → ℕ → Option (List CloneRange) → Exec (Handle S) ℕ
  unfolding clone_items slices_from clone_all
  clone same_session origin size ranges = do
    refuse_if (not same_session) value_error
    no_checkpoint
    items ← lift (clone_items origin size ranges)
    sums ← on_server (clone_all (clone_batches items) (0, 0))
    invalidate_if sums
    pure sums.0
