-- ===== src/Server/Session/Drain.antt =====
-- session.rs: what the reaper makes of the answers that are due.
use padwire.Prelude.{
  ℕ, ◌+◌, ◌≤◌, ◌<◌, ◌≡◌, refl, ap, ◌∙◌, Bool, true, false, Option, none, some, ◌==◌, ok, arith, inl,
  inr, Bool-cases, Option-cases, Result-cases,
}
use padwire.Backend.{UsbBackend, UrbCompletion}
use padwire.Server.Chord.{Detector}
use padwire.Server.Prefetch
use padwire.Server.Prefetch.{
  Prefetch, Take, ready, waiting, pass_through, Reply, internal_base, owns,
}
use padwire.Server.Prefetch.Calls.{IsWell}
use padwire.Server.Session.{Session, Answer, to_submit, count_completed}
use padwire.Server.Session.Reaper
use padwire.Server.Session.Reaper.{
  Reaping, After, screen, fill, delivered, answered, reaped, on_reap, reap_one,
}
use padwire.Server.Session.Accounts.{one, CompletesOnce, owed, deliver-due}
use padwire.Server.Session.Once.{answers_one, answers-append, total}

screen-seqnum :
    (det : Option Detector) (c : UrbCompletion) (now : ℕ) → (screen det c now).2.seqnum ≡ c.seqnum
unfolding screen
screen-seqnum none c now = refl
screen-seqnum (some det) c now = ground arith

module _ {D : Type 0} (dev : UsbBackend D) (pending : D → ℕ → ℕ)
    (v : CompletesOnce dev pending) where
  fill-total :
      (s : ℕ) (accepted : Bool) (a : Answer) (S : Session D)
      → total dev pending v s (fill accepted a S).1 ≤ total dev pending v s S + answers_one s a
  unfolding fill
  fill-total s true a S = omega (arith, answers-append s S.posted a)
  fill-total s false a S = omega arith

  delivered-total :
      (s : ℕ) (accepted : Bool) (o : Option Reply) (S : Session D)
      → total dev pending v s (delivered accepted o S).1 ≤ total dev pending v s S + owed s o
  unfolding delivered
  delivered-total s accepted none S = omega arith
  delivered-total s accepted (some (seqnum, status, report)) S =
      fill-total s accepted (to_submit seqnum _ report) (count_completed S)

  answered-total :
      (s : ℕ) (accepted : Bool) (c : UrbCompletion) (S : Session D)
      → total dev pending v s (answered accepted c S).1
        ≤ total dev pending v s S + one (c.seqnum == s)
  unfolding answered
  answered-total s accepted c S =
      fill-total s accepted (to_submit c.seqnum _ c.data_bytes) (count_completed S)

  pass_on-total :
      (s : ℕ) (accepted : Bool) (c : UrbCompletion) (S : Session D)
      → s < internal_base
      → IsWell S.prefetch
      → total dev pending v s (Reaper.pass_on dev accepted c S).1
        ≤ total dev pending v s S + one (c.seqnum == s)
  unfolding Reaper.pass_on
  pass_on-total s accepted c S low w =
      let (o, p, d) = Prefetch.deliver dev S.prefetch c.seqnum c.status c.data_bytes S.dev in
      elim (Bool-cases (owns c.seqnum)) [
        | inl e ↦ rw e (
            omega (
              arith,
              delivered-total s accepted o (record S { prefetch = p; dev = d }),
              deliver-due dev pending v s S.prefetch c.seqnum c.status c.data_bytes S.dev low w.0,
            ))
        | inr e ↦ rw e (answered-total s accepted c S)
      ]

  reaped-total :
      (s : ℕ) (accepted : Bool) (now : ℕ) (c : UrbCompletion) (r : Reaping D)
      → s < internal_base
      → IsWell r.session.prefetch
      → total dev pending v s (reaped dev accepted now c r).1.session
        ≤ total dev pending v s r.session + one (c.seqnum == s)
  unfolding reaped
  reaped-total s accepted now c r low w =
      let c' = (screen r.detector c now).2 in
      let same : one (c'.seqnum == s) ≡ one (c.seqnum == s) =
        ap (λ n. one (n == s)) (screen-seqnum r.detector c now) in
      elim (Bool-cases c.unlinked) [
        | inl e ↦ simp e (omega arith)
        | inr e ↦ simp e (omega (arith, same, pass_on-total s accepted c' r.session low w))
      ]

  pub reap_one-total :
      (s : ℕ) (accepted : Bool) (now : ℕ) (r : Reaping D)
      → s < internal_base
      → IsWell r.session.prefetch
      → total dev pending v s (reap_one dev accepted now r).1.session
        ≤ total dev pending v s r.session
  unfolding reap_one on_reap
  reap_one-total s accepted now r low w =
      let (answer, d) = dev.reap r.session.dev in
      let waits = v.waits r.session.dev s in
      elim (Result-cases answer) [
        | inr (x, e) ↦ rw e (omega (arith, waits))
        | inl (o, e) ↦ elim (Option-cases o) [
          | inl e' ↦ rw e (rw e' (omega (arith, waits)))
          | inr (c, e') ↦
              let found : answer ≡ ok (some c) = e ∙ ap ok e' in
              rw found (
                omega (
                  arith,
                  v.reaps r.session.dev s c found,
                  reaped-total s accepted now c
                      (record r { session = record r.session { dev = d } }) low w,
                ))
        ]
      ]
