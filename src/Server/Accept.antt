-- ===== src/Server/Accept.antt =====
-- crates/usbfwd-server/src/lib.rs: the accept loop's account of its connections.
use padwire.Prelude.{
  ℕ, ◌+◌, ◌-◌, ◌≤◌, ◌≡◌, refl, Bool, true, false, ◌||◌, List, [], ◌∷◌, length, leb, ◌==◌,
  if◌then◌else◌, arith, inl, inr, Bool-cases,
}
use padwire.Backend.Descriptors.Interfaces.{has}

abbrev pub max_sessions : ℕ
max_sessions = 16

-- `sessions` and `next_id` are the counters, `live` the keys of the map of sockets. The others are
-- the model's own: `threads` are the ids of the session threads that run, `lost` of those that
-- panicked.
pub record Accepting : Type 0 where
  pub sessions : ℕ
  pub next_id : ℕ
  pub live : List ℕ
  pub threads : List ℕ
  pub lost : List ℕ

abbrev pub start_accepting : Accepting
start_accepting = record { sessions = 0; next_id = 0; live = []; threads = []; lost = [] }

-- `live.remove(&id)`.
unfoldable pub forget : ℕ → List ℕ → List ℕ
forget id [] = []
forget id (n ∷ ns) = let rest = forget id ns in if n == id then rest else n ∷ rest

-- A thread ends.
unfoldable pub finish : ℕ → List ℕ → List ℕ
finish id [] = []
finish id (n ∷ ns) = let rest = finish id ns in if n == id then ns else n ∷ rest

-- A connection is accepted: whether its socket can be cloned, and its thread be started.
unfoldable pub accepted : Bool → Bool → Accepting → Accepting
unfolding forget
accepted cloned spawned a =
    let id = a.next_id in
    let live = if cloned then id ∷ a.live else a.live in
    if leb max_sessions a.sessions
    then a
    else if spawned
    then record {
      sessions = a.sessions + 1;
      next_id = id + 1;
      live = live;
      threads = id ∷ a.threads;
      lost = a.lost;
    }
    else record {
      sessions = a.sessions + 1 - 1;
      next_id = id + 1;
      live = forget id live;
      threads = a.threads;
      lost = a.lost;
    }

-- A thread whose `handle` returns, with an error or without.
unfoldable pub ended : ℕ → Accepting → Accepting
unfolding forget finish
ended id a = record {
  sessions = a.sessions - 1;
  next_id = a.next_id;
  live = forget id a.live;
  threads = finish id a.threads;
  lost = a.lost;
}

-- A thread whose `handle` panics: nothing takes its socket away or counts it off.
unfoldable pub panicked : ℕ → Accepting → Accepting
unfolding finish
panicked id a = record a { threads = finish id a.threads; lost = id ∷ a.lost }

-- The accept loop and the threads that end, in any order.
pub data Reach : Accepting → Type 0 where
  start : Reach start_accepting
  connects : {a : Accepting} (cloned spawned : Bool) → Reach a → Reach (accepted cloned spawned a)
  ends : {a : Accepting} (id : ℕ) → Reach a → has id a.threads ≡ true → Reach (ended id a)
  panics : {a : Accepting} (id : ℕ) → Reach a → has id a.threads ≡ true → Reach (panicked id a)

-- Every connection that is counted has a thread that runs or that panicked, no more than the limit
-- are, and every socket that is kept belongs to such a thread.
pub record IsCounted (a : Accepting) : Type 0 where
  pub counts : a.sessions ≡ length a.threads + length a.lost
  pub within : a.sessions ≤ max_sessions
  pub owned : (n : ℕ) → has n a.live ≡ true → has n a.threads || has n a.lost ≡ true

length-finish : (id : ℕ) (ns : List ℕ) → has id ns ≡ true → length (finish id ns) + 1 ≡ length ns
unfolding finish
length-finish id [] h = cc
length-finish id (n ∷ ns) h = elim (Bool-cases (n == id)) [
  | inl e ↦ rw e (omega arith)
  | inr e ↦ rw e (omega (arith, length-finish id ns (rw e at h)))
]

has-forget : (n id : ℕ) (ns : List ℕ) → has n (forget id ns) ≡ true → has n ns ≡ true
unfolding forget
has-forget n id [] h = h
has-forget n id (m ∷ ns) h = ground (arith, h, has-forget n id ns)

has-forget_other : (n id : ℕ) (ns : List ℕ) → has n (forget id ns) ≡ true → (id == n) ≡ false
unfolding forget
has-forget_other n id [] h = cc
has-forget_other n id (m ∷ ns) h = elim (Bool-cases (m == id)) [
  | inl e ↦ has-forget_other n id ns (rw e at h)
  | inr e ↦
      let h' : (m == n || has n (forget id ns)) ≡ true = rw e at h in
      elim (Bool-cases (m == n)) [
        | inl same ↦ ground (arith, e, same)
        | inr other ↦ has-forget_other n id ns (rw other at h')
      ]
]

has-finish :
    (n id : ℕ) (ns : List ℕ) → (id == n) ≡ false → has n ns ≡ true → has n (finish id ns) ≡ true
unfolding finish
has-finish n id [] e h = cc
has-finish n id (m ∷ ns) e h = ground (arith, e, h, has-finish n id ns)

has-finish_or :
    (n id : ℕ) (ns lost : List ℕ)
    → (id == n) ≡ false
    → has n ns || has n lost ≡ true
    → has n (finish id ns) || has n lost ≡ true
has-finish_or n id ns lost e h = ground (arith, e, h, has-finish n id ns e)

owned-lost :
    (n id : ℕ) (ns lost : List ℕ)
    → has n ns || has n lost ≡ true
    → has n (finish id ns) || has n (id ∷ lost) ≡ true
owned-lost n id ns lost h = elim (Bool-cases (id == n)) [
  | inl e ↦ ground (arith, e)
  | inr e ↦ rw e (has-finish_or n id ns lost e h)
]

owned-live :
    (cloned : Bool) (n id : ℕ) (live threads lost : List ℕ)
    → (has n live ≡ true → has n threads || has n lost ≡ true)
    → has n (if cloned then id ∷ live else live) ≡ true
    → has n (id ∷ threads) || has n lost ≡ true
owned-live true n id live threads lost f h = elim (Bool-cases (id == n)) [
  | inl e ↦ rw e refl
  | inr e ↦ rw e (f (rw e at h))
]
owned-live false n id live threads lost f h = ground (arith, f h)

owned-forget :
    (cloned : Bool) (n id : ℕ) (live threads lost : List ℕ)
    → (has n live ≡ true → has n threads || has n lost ≡ true)
    → has n (forget id (if cloned then id ∷ live else live)) ≡ true
    → has n threads || has n lost ≡ true
owned-forget cloned n id live threads lost f h =
    let other = has-forget_other n id (if cloned then id ∷ live else live) h in
    let there =
      owned-live cloned n id live threads lost f
        (has-forget n id (if cloned then id ∷ live else live) h) in
    ground (arith, other, there)

accepted-IsCounted :
    (cloned spawned : Bool) (a : Accepting) → IsCounted a → IsCounted (accepted cloned spawned a)
unfolding accepted
accepted-IsCounted cloned spawned a v = elim (Bool-cases (leb max_sessions a.sessions)) [
  | inl full ↦ rw full v
  | inr room ↦ rw room (elim (Bool-cases spawned) [
    | inl up ↦ rw up record {
      counts = omega (arith, v.counts);
      within = ground (arith, room);
      owned = λ n h. owned-live cloned n a.next_id a.live a.threads a.lost (v.owned n) h;
    }
    | inr failed ↦ rw failed record {
      counts = omega (arith, v.counts);
      within = omega (arith, v.within);
      owned = λ n h. owned-forget cloned n a.next_id a.live a.threads a.lost (v.owned n) h;
    }
  ])
]

ended-IsCounted :
    (id : ℕ) (a : Accepting) → has id a.threads ≡ true → IsCounted a → IsCounted (ended id a)
unfolding ended
ended-IsCounted id a h v = record {
  counts = omega (arith, v.counts, length-finish id a.threads h);
  within = omega (arith, v.within);
  owned = λ n on.
      has-finish_or n id a.threads a.lost (has-forget_other n id a.live on)
        (v.owned n (has-forget n id a.live on));
}

panicked-IsCounted :
    (id : ℕ) (a : Accepting) → has id a.threads ≡ true → IsCounted a → IsCounted (panicked id a)
unfolding panicked
panicked-IsCounted id a h v = record {
  counts = omega (arith, v.counts, length-finish id a.threads h);
  within = v.within;
  owned = λ n on. owned-lost n id a.threads a.lost (v.owned n on);
}

-- Whatever connects, ends and panics, in any order and with any failures to start, the count of
-- sessions is that of the threads that run or that panicked, it never passes the limit, and every
-- socket that is kept belongs to one of these threads.
pub Reach-IsCounted : {a : Accepting} → Reach a → IsCounted a
Reach-IsCounted start = record { counts = refl; within = omega arith; owned = λ n h. cc (h) }
Reach-IsCounted (connects {a = a} cloned spawned r) =
    accepted-IsCounted cloned spawned a (Reach-IsCounted r)
Reach-IsCounted (ends {a = a} id r h) = ended-IsCounted id a h (Reach-IsCounted r)
Reach-IsCounted (panics {a = a} id r h) = panicked-IsCounted id a h (Reach-IsCounted r)
