-- ===== src/Machine/Answers.antt =====
-- proto/machine.py: the handlers of one reply to a pending request. A handler does not touch the
-- framer that it is passed but to make it collect a trailer, which is what it returns here.
use xrdclient.Prelude.{
  ℕ, ◌+◌, Bool, true, false, ◌||◌, [], ◌∷◌, ◌++◌, Option, none, some, leb, ◌==◌, not, if◌then◌else◌,
  ℤ, pos, negsuc, leb_ℤ, length, lookup, put, discard,
}
use xrdclient.Errors.{Bytes, ok, protocol_error, server_error, over_cap, unexpected_status}
use xrdclient.Exec.{Exec, pure, lift, modify, ◌>>=◌, ◌>>◌}
use xrdclient.Wire.Responses.{
  StatusInfo, is_final, parse_error, parse_redirect, parse_wait, parse_waitresp, parse_status,
}
use xrdclient.Machine.Types.{
  Machine, Pending, emit, completed, chunk, redirected, waiting, failed_event,
}
use xrdclient.Machine.Streams.{release}

-- `framer.need_trailer` and `framer.trailer_for`
pub record Trailer : Type 0 where
  pub need : ℤ
  pub owner : Option ℕ

-- A handler: none leaves the framer alone.
abbrev pub Handler : Type 0
Handler = Exec Machine (Option Trailer)

abbrev pub done : Handler
done m = (ok none, m)

abbrev pub is_zero : ℤ → Bool
is_zero (pos n) = n == 0
is_zero (negsuc n) = false

-- the test of `_within_cap`
abbrev pub fits_cap : Pending → ℕ → Bool
fits_cap p extra = (p.cap == 0) || leb (length p.buffer + extra) p.cap

-- what `_within_cap` does to a stream over its cap
abbrev pub refuse_surplus : ℕ → Pending → Machine → Machine
refuse_surplus sid p m =
    emit (failed_event (some sid) (some p.request) (protocol_error (over_cap p.cap)))
      (release sid m)

-- `_within_cap`
unfoldable pub within_cap : ℕ → Pending → ℕ → Exec Machine Bool
unfolding release
within_cap sid p extra m =
    if fits_cap p extra then (ok true, m) else (ok false, refuse_surplus sid p m)

-- `_response_ok`
unfoldable pub response_ok : ℕ → Bytes → Pending → Handler
unfolding within_cap release
response_ok sid body p = do
  fits ← (if p.cap == 0 then pure true else within_cap sid p (length body))
  modify (λ m.
      if fits
      then emit (completed sid p.request (p.buffer ++ body) p.status) (release sid m)
      else m)
  done

-- `_response_chunk`
unfoldable pub response_chunk : ℕ → Bytes → Pending → Handler
unfolding within_cap
response_chunk sid body p = do
  fits ← within_cap sid p (length body)
  modify (λ m.
      if fits
      then emit (chunk sid p.request body)
          (record m { pending = put sid (record p { buffer = p.buffer ++ body }) m.pending })
      else m)
  done

-- `_response_error`, with `server_error`
unfoldable pub response_error : ℕ → Bytes → Pending → Handler
unfolding parse_error release
response_error sid body p = do
  info ← lift (parse_error body)
  modify (λ m.
      emit (failed_event (some sid) (some p.request) (server_error info.code info.message p.path))
        (release sid m))
  done

-- `_response_redirect`
unfoldable pub response_redirect : ℕ → Bytes → Pending → Handler
unfolding parse_redirect
response_redirect sid body p = do
  target ← lift (parse_redirect body)
  modify (emit (redirected sid p.request target))
  done

abbrev pub min_ℤ : ℤ → ℤ → ℤ
min_ℤ a b = if leb_ℤ a b then a else b

-- `_response_wait`
unfoldable pub response_wait : ℕ → Bytes → Pending → Handler
unfolding parse_wait
response_wait sid body p = do
  info ← lift (parse_wait body)
  modify
      (λ m. emit (waiting sid p.request (min_ℤ info.seconds m.config.wait_cap) info.message true) m)
  done

-- `_response_waitresp`
unfoldable pub response_waitresp : ℕ → Bytes → Pending → Handler
unfolding parse_waitresp
response_waitresp sid body p = do
  later ← lift (parse_waitresp body)
  modify (emit (waiting sid p.request later.seconds [] false))
  done

-- `_on_status_data`, for a pending stream and its status
unfoldable pub status_data_for : ℕ → Bytes → Pending → StatusInfo → Exec Machine (Unit {0})
unfolding within_cap release
status_data_for sid bytes p info = do
  fits ← within_cap sid p (length bytes)
  modify (λ m.
      if not fits
      then m
      else if is_final info
      then emit (completed sid p.request (p.buffer ++ bytes) (some info)) (release sid m)
      else emit (chunk sid p.request bytes)
          (record m { pending = put sid (record p { buffer = p.buffer ++ bytes }) m.pending }))

abbrev pub status_data_with : ℕ → Bytes → Pending → Option StatusInfo → Exec Machine (Unit {0})
status_data_with sid bytes p none = pure tt
status_data_with sid bytes p (some info) = status_data_for sid bytes p info

abbrev pub status_data_of : ℕ → Bytes → Option Pending → Exec Machine (Unit {0})
status_data_of sid bytes none = pure tt
status_data_of sid bytes (some p) = status_data_with sid bytes p p.status

-- `_on_status_data`
unfoldable pub on_status_data : ℕ → Bytes → Exec Machine (Unit {0})
unfolding status_data_for
on_status_data sid bytes m = status_data_of sid bytes (lookup sid m.pending) m

-- `_response_status`
unfoldable pub response_status : ℕ → Bytes → Pending → Handler
unfolding parse_status on_status_data
response_status sid body p = do
  info ← lift (parse_status body)
  modify (λ m. record m { pending = put sid (record p { status = some info }) m.pending })
  (if is_zero info.dlen
      then (on_status_data sid [] >>= λ _. done)
      else pure (some (record { need = info.dlen; owner = some sid })))

-- `_response_unexpected`
unfoldable pub response_unexpected : ℕ → ℕ → Pending → Handler
unfolding release
response_unexpected sid status p m = (
  ok none,
  emit (failed_event (some sid) (some p.request) (protocol_error (unexpected_status status)))
      (release sid m),
)

-- `pending`'s answer by its status, as `_dispatch` and `_HANDLERS` choose it
unfoldable pub answer : ℕ → ℕ → Bytes → Pending → Handler
unfolding response_ok response_chunk response_error response_redirect response_wait
    response_waitresp response_status response_unexpected
answer sid status body p =
    if status == 0
    then response_ok sid body p
    else if status == 4000
    then response_chunk sid body p
    else if status == 4003
    then response_error sid body p
    else if status == 4004
    then response_redirect sid body p
    else if status == 4005
    then response_wait sid body p
    else if status == 4006
    then response_waitresp sid body p
    else if status == 4007
    then response_status sid body p
    else response_unexpected sid status p

-- `self._retired.discard(sid); self._free.append(sid)`
abbrev pub retire_done : ℕ → Machine → Machine
retire_done sid m = record m { retired = discard sid m.retired; free = m.free ++ (sid ∷ []) }

abbrev pub owner_of : ℕ → ℤ → Option ℕ
owner_of sid need = if is_zero need then none else some sid

-- `_retired_reply`
unfoldable pub retired_reply : ℕ → ℕ → Bytes → Handler
unfolding parse_status
retired_reply sid status body =
    if status == 4007
    then (do
      info ← lift (parse_status body)
      modify (λ m. if is_final info then retire_done sid m else m)
      pure (some (record { need = info.dlen; owner = owner_of sid info.dlen })))
    else (do
      modify (λ m. if (status == 4000) || (status == 4006) then m else retire_done sid m)
      done)
