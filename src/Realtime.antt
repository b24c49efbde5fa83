-- ===== src/Realtime.antt =====
-- Connection tickets: `RealtimeTicketService` (src/realtime/realtime-ticket.service.ts) and its rows
-- (src/realtime/realtime-ticket.entity.ts). The hash is a parameter.
pub mod Once
pub mod Graph
pub mod Edges
pub mod Joined
pub mod Append
pub mod Requests
pub mod Sequence
pub mod Again
mod Tests
use jagalchi_api.Base.{
  ℕ, String, Bool, true, false, Option, none, some, List, ◌∷◌, ◌+◌, ◌&&◌, not, str_eq, is_some, ltb,
  find_where, save,
}

pub record ConnectionTicket : Type 0 where
  pub id : String
  pub user_id : String
  pub audience : String
  pub token_hash : String
  pub expires_at : ℕ
  pub consumed_at : Option ℕ

abbrev pub ticket_ttl_ms : ℕ
ticket_ttl_ms = 60000

abbrev pub ticket_id : ConnectionTicket → String
ticket_id t = t.id

module _ (hash : String → String) where
  -- `issue`: `ticket` is what `randomBytes` gave.
  unfoldable pub issue :
      String → String → String → String → ℕ → List ConnectionTicket → List ConnectionTicket
  issue user audience ticket id now ts =
      record {
        id = id;
        user_id = user;
        audience = audience;
        token_hash = hash ticket;
        expires_at = now + ticket_ttl_ms;
        consumed_at = none;
      }
      ∷ ts

  -- The conditions of the query of `consume`.
  unfoldable pub is_usable : String → String → ℕ → ConnectionTicket → Bool
  is_usable raw audience now t =
      str_eq t.token_hash (hash raw)
      && str_eq t.audience audience
      && not (is_some t.consumed_at)
      && ltb now t.expires_at

  -- `consume`: the clock is read for the query and for the row.
  unfoldable pub consume :
      String → String → ℕ → ℕ → List ConnectionTicket → Option String × List ConnectionTicket
  consume raw audience asked now ts = elim (find_where (is_usable raw audience asked) ts) [
    | none ↦ (none, ts)
    | some t ↦ (some t.user_id, save ticket_id (record t { consumed_at = some now }) ts)
  ]
