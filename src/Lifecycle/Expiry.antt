-- ===== src/Lifecycle/Expiry.antt =====
-- Clarifications that come too late.
use nyra.Base.{◌≡◌, refl, ◌∙◌, ℕ, ◌+◌, ◌≤◌, String, true, Option, some, [], ok, none, arith}
use nyra.Table.{find}
use nyra.Table.Laws.{find-update}
use nyra.Lifecycle.{NyraRequest, PersistedRequestState, needs_clarification, expired, dumped, iso}
use nyra.Lifecycle.Store.{
  RequestTable, state_id, get_state, expire_due, is_expiring, expired_row, stored_le,
}
use nyra.Lifecycle.Identify.{RawIdentity}
use nyra.Lifecycle.Decide.{Ports}
use nyra.Lifecycle.Execute.{is_session, open_request, execute_request, already_expired}

-- A time that is a second or more before another comes before it in the table too.
stored_le-second_before : (e now : ℕ) → e + 1000000 ≤ now → stored_le (dumped e) (iso now) ≡ true
unfolding stored_le
stored_le-second_before e now h = ground arith

is_expiring-second_before :
    (e now : ℕ) (s : PersistedRequestState)
    → s.status ≡ needs_clarification
    → s.expires_at ≡ some (dumped e)
    → e + 1000000 ≤ now
    → is_expiring now s ≡ true
is_expiring-second_before e now s waits due late =
    rw (waits, due) (stored_le-second_before e now late)

-- An answer to a clarification that comes a second or more after its expiry, for its own session, is told that the
-- request has expired: nothing is published or run for it, and its row is left as EXPIRED, with the time of the answer.
pub overdue_is_refused :
    {D M S Score : Type 0} (lifetime : ℕ) (directory : String → Option String) (ports : Ports D M S)
    (now e : ℕ) (raw : RawIdentity Score) (trace id : String) (r : NyraRequest)
    (others : RequestTable → RequestTable) (s : PersistedRequestState) (table : RequestTable)
    → r.request_id ≡ some id
    → get_state id table ≡ some s
    → is_session r.session_id s.session_id ≡ true
    → s.status ≡ needs_clarification
    → s.expires_at ≡ some (dumped e)
    → e + 1000000 ≤ now
    → ((execute_request lifetime directory ports now raw trace r others table).end
        ≡ ok (record {
          status = expired;
          session_id = r.session_id;
          request_id = r.request_id;
          trace_id = trace;
          text = none;
          close_reason = none;
          error = none;
        }))
      × ((execute_request lifetime directory ports now raw trace r others table).deeds ≡ [])
      × (get_state id (execute_request lifetime directory ports now raw trace r others table).table
          ≡ some (record s { status = expired; updated_at = iso now }))
unfolding execute_request open_request expire_due
overdue_is_refused lifetime directory ports now e raw trace id r others s table named h own waits
      due late =
    let aged : find state_id id (expire_due now table) ≡ some (expired_row now s) =
      find-update state_id (is_expiring now) (expired_row now) (λ row. refl) id table
      ∙ rw (h, is_expiring-second_before e now s waits due late) refl in
    let refused : (open_request now r table).0 ≡ ok already_expired =
      rw (open_request, named, aged, own) refl in
    let left : get_state id (open_request now r table).1 ≡ some (expired_row now s) =
      rw (open_request, named) aged in
    (
      rw (execute_request, refused) refl,
      rw (execute_request, refused) refl,
      rw (execute_request, refused) left,
    )
