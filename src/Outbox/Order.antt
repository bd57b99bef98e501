-- ===== src/Outbox/Order.antt =====
-- The relay publishes in order, and marks what it has published.
use booking_flight_system_mi.Base.{
  Text, ℕ, ◌≡◌, refl, sym, ap, ◌∙◌, inl, inr, Bool, ◌||◌, List, [], ◌∷◌, ◌++◌, any, update_where,
  same, Result, Fault, ok, thrown, Bool-cases, Result-cases, arith,
}
use booking_flight_system_mi.Store.{Database, OutboxRow, Queue, Event}
use booking_flight_system_mi.Outbox.Pending.{Pending, find_unpublished-Pending}
use booking_flight_system_mi.Outbox.{
  find_unpublished, published_row, mark_published, relay_entries, relay,
}

-- The outbox with the rows of these ids marked.
abbrev pub marked : List OutboxRow → List OutboxRow → List OutboxRow
marked sent = update_where (λ r. any (λ s. same r.id s.id) sent) published_row

-- Marking twice is marking the rows of either.
update_where-either :
    (p q : OutboxRow → Bool)
    → ((r : OutboxRow) → q (published_row r) ≡ q r)
    → (rows : List OutboxRow)
    → update_where q published_row (update_where p published_row rows)
      ≡ update_where (λ r. p r || q r) published_row rows
update_where-either p q kept [] = refl
update_where-either p q kept (r ∷ rows) = elim (Bool-cases (p r)) [
  | inl y ↦ elim (Bool-cases (q r)) [
    | inl z ↦
        rw (y, kept r, z) (ap (λ rest. published_row r ∷ rest) (update_where-either p q kept rows))
    | inr m ↦
        rw (y, kept r, m) (ap (λ rest. published_row r ∷ rest) (update_where-either p q kept rows))
  ]
  | inr n ↦ rw n (
      ap (λ rest. update_where q published_row (r ∷ []) ++ rest)
        (update_where-either p q kept rows))
]

marked-nil : (rows : List OutboxRow) → marked [] rows ≡ rows
marked-nil [] = refl
marked-nil (r ∷ rows) = ap (λ rest. r ∷ rest) (marked-nil rows)

marked-cons :
    (e : OutboxRow) (sent : List OutboxRow) (db : Database)
    → marked sent (mark_published e.id db).outbox ≡ marked (e ∷ sent) db.outbox
unfolding mark_published
marked-cons e sent db =
    update_where-either (λ r. same r.id e.id) (λ r. any (λ s. same r.id s.id) sent) (λ r. refl)
      db.outbox

module _ {Broker : Type 0} (publish : Queue → Event → Broker → Broker × Result (Unit {0}))
    (commits : Text → Broker → Result (Unit {0})) where
  -- The entries were published and marked, one after another, and nothing failed.
  abbrev pub Delivered : List OutboxRow → Broker → Broker → Type 0
  Delivered [] b c = b ≡ c
  Delivered (e ∷ es) b c =
      (next : Broker) × (publish e.event_type e.payload b ≡ (next, ok tt))
      × (commits e.id next ≡ ok tt)
      × Delivered es next c

  -- The end of the loop: nothing is left, or the publication of the next entry failed, or the broker
  -- has taken the next entry and the UPDATE that marks it failed.
  pub data Ended : List OutboxRow → Broker → Broker → Type 0 where
    all_done : (b : Broker) → Ended [] b b
    not_taken :
        (e : OutboxRow) (es : List OutboxRow) (b c : Broker) (x : Fault)
        → publish e.event_type e.payload b ≡ (c, thrown x)
        → Ended (e ∷ es) b c
    not_marked :
        (e : OutboxRow) (es : List OutboxRow) (b c : Broker) (x : Fault)
        → publish e.event_type e.payload b ≡ (c, ok tt)
        → commits e.id c ≡ thrown x
        → Ended (e ∷ es) b c

  pub record RelayOutcome (entries : List OutboxRow) (db : Database) (b : Broker) (db' : Database)
      (b' : Broker) : Type 0 where
    pub sent : List OutboxRow
    pub left : List OutboxRow
    pub between : Broker
    pub in_order : entries ≡ sent ++ left
    pub delivered : Delivered sent b between
    pub ended : Ended left between b'
    pub written : db' ≡ record db { outbox = marked sent db.outbox }

  relay_broke :
      (e : OutboxRow) (entries : List OutboxRow) (db : Database) (b : Broker) (x : Fault)
      → (publish e.event_type e.payload b).1 ≡ thrown x
      → relay_entries publish commits (e ∷ entries) (db, b)
        ≡ (db, (publish e.event_type e.payload b).0)
  unfolding relay_entries
  relay_broke e entries db b x h = rw (relay_entries, h) refl

  relay_unmarked :
      (e : OutboxRow) (entries : List OutboxRow) (db : Database) (b : Broker) (x : Fault)
      → (publish e.event_type e.payload b).1 ≡ ok tt
      → commits e.id (publish e.event_type e.payload b).0 ≡ thrown x
      → relay_entries publish commits (e ∷ entries) (db, b)
        ≡ (db, (publish e.event_type e.payload b).0)
  unfolding relay_entries
  relay_unmarked e entries db b x h k = rw (relay_entries, h, k) refl

  relay_sent :
      (e : OutboxRow) (entries : List OutboxRow) (db : Database) (b : Broker)
      → (publish e.event_type e.payload b).1 ≡ ok tt
      → commits e.id (publish e.event_type e.payload b).0 ≡ ok tt
      → relay_entries publish commits (e ∷ entries) (db, b)
        ≡ relay_entries publish commits entries
            (mark_published e.id db, (publish e.event_type e.payload b).0)
  unfolding relay_entries
  relay_sent e entries db b h k = rw (relay_entries, h, k) refl

  -- Nothing sent: the tables are as they were.
  stopped :
      (entries : List OutboxRow) (db : Database) (b c : Broker)
      → Ended entries b c
      → RelayOutcome entries db b db c
  stopped entries db b c how = record {
    sent = [];
    left = entries;
    between = b;
    in_order = refl;
    delivered = refl;
    ended = how;
    written = ap (λ rows. record db { outbox = rows }) (sym (marked-nil db.outbox));
  }

  sent_first :
      (e : OutboxRow) (entries : List OutboxRow) (db db' : Database) (b c b' : Broker)
      → publish e.event_type e.payload b ≡ (c, ok tt)
      → commits e.id c ≡ ok tt
      → RelayOutcome entries (mark_published e.id db) c db' b'
      → RelayOutcome (e ∷ entries) db b db' b'
  unfolding mark_published
  sent_first e entries db db' b c b' taken kept rest = record {
    sent = e ∷ rest.sent;
    left = rest.left;
    between = rest.between;
    in_order = ap (λ es. e ∷ es) rest.in_order;
    delivered = (c, taken, kept, rest.delivered);
    ended = rest.ended;
    written = rest.written ∙ ap (λ rows. record db { outbox = rows }) (marked-cons e rest.sent db);
  }

  relay_nil : (db : Database) (b : Broker) → relay_entries publish commits [] (db, b) ≡ (db, b)
  unfolding relay_entries
  relay_nil db b = refl

  relay_entries-outcome :
      (entries : List OutboxRow) (db : Database) (b : Broker)
      → let (db', b') = relay_entries publish commits entries (db, b) in
        RelayOutcome entries db b db' b'
  relay_entries-outcome [] db b = rw (relay_nil db b) (stopped [] db b b (all_done b))
  relay_entries-outcome (e ∷ entries) db b =
      let c = (publish e.event_type e.payload b).0 in
      elim (Result-cases (publish e.event_type e.payload b).1) [
        | inr (x, n) ↦
            let h : publish e.event_type e.payload b ≡ (c, thrown x) = ground arith in
            rw (relay_broke e entries db b x n)
              (stopped (e ∷ entries) db b c (not_taken e entries b c x h))
        | inl (u, y) ↦
            let h : publish e.event_type e.payload b ≡ (c, ok tt) = ground arith in
            elim (Result-cases (commits e.id c)) [
              | inr (x, n) ↦
                  rw (relay_unmarked e entries db b x y n)
                    (stopped (e ∷ entries) db b c (not_marked e entries b c x h n))
              | inl (v, k) ↦ rw (relay_sent e entries db b y k) (
                  sent_first e entries db _ b c _ h k
                    (relay_entries-outcome entries (mark_published e.id db) c))
            ]
      ]

  -- A run of the relay takes unpublished rows of the outbox in the order of their creation, at most
  -- as many as the batch size, and leaves out only rows that are as old or younger, and those only
  -- when the batch is full. It publishes them one after another: those whose publication and UPDATE
  -- both succeeded, from the first on, are marked as published, and no other row of the outbox
  -- changes. It ends when none is left, at the first entry that the broker did not take, or at the
  -- first that the broker took and whose UPDATE failed, which stays unpublished.
  pub relay-outcome :
      (batch_size : ℕ) (db : Database) (b : Broker)
      → Pending batch_size db.outbox (find_unpublished batch_size db)
        × (let (db', b') = relay publish commits batch_size (db, b) in
            RelayOutcome (find_unpublished batch_size db) db b db' b')
  unfolding relay
  relay-outcome batch_size db b = (
    find_unpublished-Pending batch_size db,
    relay_entries-outcome (find_unpublished batch_size db) db b,
  )
