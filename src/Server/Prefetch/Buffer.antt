-- ===== src/Server/Prefetch/Buffer.antt =====
-- prefetch.rs, `deliver`: the reports that are kept while nobody waits.
use padwire.Prelude.{
  ℕ, suc, ◌-◌, ◌≤◌, ◌≡◌, refl, ◌∙◌, sym, ap, List, [], ◌∷◌, ◌++◌, append_assoc, append-nil, length,
  drop, length-append, arith, Bool-cases, ◌==◌, inl, inr,
}
use padwire.Server.Prefetch.{depth, buffered}
use padwire.Server.Prefetch.Invariant.{buffered-bounded}

-- The buffer after reports that nobody took.
unfoldable pub buffered_all : List (List ℕ) → List (List ℕ) → List (List ℕ)
buffered_all captured [] = captured
buffered_all captured (report ∷ reports) = buffered_all (buffered captured report) reports

-- The newest reports of a sequence, as many as there is room for.
abbrev pub newest : List (List ℕ) → List (List ℕ)
newest reports = drop (length reports - depth) reports

newest-older :
    (r : List ℕ) (reports : List (List ℕ))
    → depth ≤ length reports
    → newest (r ∷ reports) ≡ newest reports
newest-older r reports h =
    let e : suc (length reports) - depth ≡ suc (length reports - depth) = omega arith in rw e refl

newest-step :
    (captured : List (List ℕ)) (report : List ℕ) (reports : List (List ℕ))
    → length captured ≤ depth
    → newest (buffered captured report ++ reports) ≡ newest (captured ++ report ∷ reports)
unfolding buffered
newest-step [] report reports h = refl
newest-step (r ∷ captured) report reports h = elim (Bool-cases (length (r ∷ captured) == depth)) [
  | inl full ↦ rw full (
      ap newest (append_assoc captured (report ∷ []) reports)
      ∙ sym (
          newest-older r (captured ++ report ∷ reports)
            (ground (arith, length-append captured (report ∷ reports)))))
  | inr room ↦ rw room (ap newest (append_assoc (r ∷ captured) (report ∷ []) reports))
]

-- Of the reports that arrive while nobody waits, the newest four are kept, in their order.
pub buffered_all-newest :
    (captured reports : List (List ℕ))
    → length captured ≤ depth
    → buffered_all captured reports ≡ newest (captured ++ reports)
unfolding buffered_all
buffered_all-newest captured [] h =
    let e : length captured - depth ≡ 0 = omega arith in
    sym (ap newest (append-nil captured) ∙ ap (λ n. drop n captured) e)
buffered_all-newest captured (report ∷ reports) h =
    buffered_all-newest (buffered captured report) reports (buffered-bounded captured report h)
    ∙ newest-step captured report reports h
