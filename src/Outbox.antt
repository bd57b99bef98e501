-- ===== src/Outbox.antt =====
-- api/src/outbox: the relay from the outbox to the message broker, and the repository's part in it.
-- The publisher, a client of a library, is a parameter, and so is whether an UPDATE fails: either is
-- an await of the same `try`, and what it throws ends the loop.
pub mod Pending
pub mod Order
use booking_flight_system_mi.Base.{
  ℕ, Bool, true, false, not, List, [], ◌∷◌, take, keep, sort_by, update_where, leb, same, Text,
  Result, ok, thrown,
}
use booking_flight_system_mi.Store.{Database, OutboxRow, Queue, Event}

abbrev pub created_leb : OutboxRow → OutboxRow → Bool
created_leb r s = leb r.created_at s.created_at

-- Rows of the same instant come in some fixed order.
unfoldable pub find_unpublished : ℕ → Database → List OutboxRow
find_unpublished limit db = take limit (sort_by created_leb (keep (λ r. not r.published) db.outbox))

abbrev pub published_row : OutboxRow → OutboxRow
published_row r = record r { published = true }

unfoldable pub mark_published : Text → Database → Database
mark_published id db = record db {
  outbox = update_where (λ r. same r.id id) published_row db.outbox;
}

abbrev pub default_batch_size : ℕ
default_batch_size = 20

-- `commits id b`: what the UPDATE that marks the entry `id` answers while the broker is as `b` is.
module _ {Broker : Type 0} (publish : Queue → Event → Broker → Broker × Result (Unit {0}))
    (commits : Text → Broker → Result (Unit {0})) where
  -- The loop of the job: it breaks off at the first failure, of the publication or of the UPDATE; an
  -- entry that the broker took and whose UPDATE failed stays unpublished in the table.
  unfoldable pub relay_entries : List OutboxRow → Database × Broker → Database × Broker
  relay_entries [] st = st
  relay_entries (entry ∷ entries) (db, b) =
      let (b', result) = publish entry.event_type entry.payload b in
      let rest = relay_entries entries (mark_published entry.id db, b') in
      elim result [
        | thrown e ↦ (db, b')
        | ok u ↦ elim (commits entry.id b') [ thrown e ↦ (db, b') | ok v ↦ rest ]
      ]

  unfoldable pub relay : ℕ → Database × Broker → Database × Broker
  relay batch_size (db, b) = relay_entries (find_unpublished batch_size db) (db, b)
