-- ===== src/Server/Prefetch/Endpoints.antt =====
-- The endpoints that prefetch.rs keeps, and the map that holds them.
use padwire.Prelude.{
  ℕ, ◌≡◌, Bool, Option, none, some, List, [], ◌∷◌, ◌==◌, if◌then◌else◌, arith, inl, inr, Bool-cases,
  subst,
}

pub record Waiter : Type 0 where
  pub seqnum : ℕ
  pub max_len : ℕ

pub record Endpoint : Type 0 where
  pub number : ℕ
  pub max_packet : ℕ
  pub in_flight : Option ℕ
  pub captured : List (List ℕ)
  pub waiting : Option Waiter
  pub errors : ℕ
  pub disabled : Bool

abbrev pub EndpointMap : Type 0
EndpointMap = List (ℕ × Endpoint)

unfoldable pub lookup : ℕ → EndpointMap → Option Endpoint
lookup k [] = none
lookup k ((j, ep) ∷ eps) = if j == k then some ep else lookup k eps

-- A write through `get_mut`: an entry that is there is changed in place.
unfoldable pub put : ℕ → Endpoint → EndpointMap → EndpointMap
put k v [] = []
put k v ((j, ep) ∷ eps) = if j == k then (j, v) ∷ eps else (j, ep) ∷ put k v eps

unfoldable pub insert : ℕ → Endpoint → EndpointMap → EndpointMap
insert k v [] = (k, v) ∷ []
insert k v ((j, ep) ∷ eps) = if j == k then (j, v) ∷ eps else (j, ep) ∷ insert k v eps

-- Every endpoint of a map has a property.
abbrev pub Every : (Endpoint → Type 0) → EndpointMap → Type 0
Every P [] = Unit {0}
Every P ((k, ep) ∷ eps) = P ep × Every P eps

module _ (P : Endpoint → Type 0) where
  pub Every-lookup :
      (k : ℕ) (eps : EndpointMap) {ep : Endpoint} → Every P eps → lookup k eps ≡ some ep → P ep
  unfolding lookup
  Every-lookup k [] h e = cc
  Every-lookup k ((j, ep') ∷ eps) h e = elim (Bool-cases (j == k)) [
    | inl hit ↦ subst P (cc (rw hit at e)) h.0
    | inr miss ↦ Every-lookup k eps h.1 (rw miss at e)
  ]

  pub Every-put :
      (k : ℕ) (ep : Endpoint) (eps : EndpointMap) → P ep → Every P eps → Every P (put k ep eps)
  unfolding put
  Every-put k ep [] p h = tt
  Every-put k ep ((j, ep') ∷ eps) p h = elim (Bool-cases (j == k)) [
    | inl hit ↦ rw hit (p, h.1)
    | inr miss ↦ rw miss (h.0, Every-put k ep eps p h.1)
  ]

  pub Every-insert :
      (k : ℕ) (ep : Endpoint) (eps : EndpointMap) → P ep → Every P eps → Every P (insert k ep eps)
  unfolding insert
  Every-insert k ep [] p h = (p, tt)
  Every-insert k ep ((j, ep') ∷ eps) p h = elim (Bool-cases (j == k)) [
    | inl hit ↦ rw hit (p, h.1)
    | inr miss ↦ rw miss (h.0, Every-insert k ep eps p h.1)
  ]

pub lookup-put :
    (k j : ℕ) (v : Endpoint) (eps : EndpointMap) {ep : Endpoint}
    → lookup k eps ≡ some ep
    → lookup j (put k v eps) ≡ (if k == j then some v else lookup j eps)
unfolding lookup put
lookup-put k j v [] h = cc
lookup-put k j v ((i, w) ∷ eps) {ep} h = elim (Bool-cases (i == k)) [
  | inl hit ↦ rw hit (ground arith)
  | inr miss ↦ rw miss (ground (arith, lookup-put k j v eps {ep = ep} (rw miss at h)))
]
