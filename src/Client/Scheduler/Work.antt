-- ===== src/Client/Scheduler/Work.antt =====
-- The generated work that a group counts.
use bic_os.Base.{
  ℕ, ◌+◌, ◌%◌, ◌^◌, ◌≤◌, ◌≡◌, refl, sym, Option, none, List, [], ◌∷◌, All, ok, >>=-eq-ok,
  ok-injective, leb, Bool-cases, inl, inr, arith,
}
use bic_os.Client.Scheduler.{
  World, ClientHandle, Command, get_delta, visit, Visited, visit_all, GroupHandle, update_status,
}

-- What the clients had generated when the group last looked.
abbrev pub seen_work : List ClientHandle → ℕ
seen_work [] = 0
seen_work (h ∷ hs) = h.last_generated_work + seen_work hs

-- All work since a start, modulo 2 ^ 64.
abbrev pub Accounted : {F : Type 0} → ℕ → GroupHandle F → Type 0
Accounted base g = (g.generated_work + base) % 2 ^ 64 ≡ seen_work g.handles % 2 ^ 64

-- The group has looked at what its clients report.
abbrev pub UpToDate : World → List ClientHandle → Type 0
UpToDate w hs = All (λ h. h.last_generated_work ≡ w.generated_work h.client) hs

get_delta-eq-ok :
    (w : World) (h : ClientHandle) (one : ℕ × ClientHandle)
    → get_delta w h ≡ ok one
    → (h.last_generated_work + one.0 ≡ one.1.last_generated_work)
      × (one.1.last_generated_work ≡ w.generated_work one.1.client)
unfolding get_delta
get_delta-eq-ok w h one e =
    elim (Bool-cases (leb h.last_generated_work (w.generated_work h.client))) [
      | inl more ↦
          let e' = rw more at e in
          let same = ok-injective _ _ e' in
          let le : h.last_generated_work ≤ w.generated_work h.client = ground (arith, more) in
          rw (sym same) (omega (arith, le), refl)
      | inr less ↦ absurd (let e' = rw less at e in cc)
    ]

visit_all-eq-ok :
    (w : World) (hs : List ClientHandle) (active : Option ℕ) (seen : Visited)
    → visit_all w hs active ≡ ok seen
    → ((seen_work hs + seen.delta) % 2 ^ 64 ≡ seen_work seen.handles % 2 ^ 64)
      × UpToDate w seen.handles
unfolding visit_all
visit_all-eq-ok w [] active seen e = let same = ok-injective _ _ e in rw (sym same) (refl, tt)
visit_all-eq-ok w (h ∷ hs) active seen e =
    let (one, delta, next) = >>=-eq-ok (get_delta w h) _ e in
    let (rest, others, last) = >>=-eq-ok (visit_all w hs (visit w active h.client).0) _ next in
    let (sum, now) = get_delta-eq-ok w h one delta in
    let (sums, up_to_date) = visit_all-eq-ok w hs _ rest others in
    let same = ok-injective _ _ last in rw (sym same) (omega (arith, sum, sums), (now, up_to_date))

-- An update of a group counts all work of its clients that it has not counted yet, once: what it
-- has counted since a start stays what its clients have generated since then, modulo 2 ^ 64, and
-- afterwards it has seen all that they report.
pub update_status-Accounted :
    {F : Type 0} (w : World) (g : GroupHandle F) (base : ℕ) (next : GroupHandle F × List Command)
    → Accounted base g
    → update_status w g ≡ ok next
    → Accounted base next.0 × UpToDate w next.0.handles
unfolding update_status
update_status-Accounted w g base next accounted e =
    let (seen, run, last) = >>=-eq-ok (visit_all w g.handles none) _ e in
    let (sums, up_to_date) = visit_all-eq-ok w g.handles none seen run in
    let same = ok-injective _ _ last in rw (sym same) (omega (arith, accounted, sums), up_to_date)
