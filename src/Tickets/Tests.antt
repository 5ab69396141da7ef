-- ===== src/Tickets/Tests.antt =====
-- Runs of the tickets of crates/lodger/src/tickets.rs, and instances of the theorems. The hash of
-- these runs reads a text as a number in base 2 ^ 21.
use lodger.Map.{get, insert, remove, retain}
use lodger.Prelude.Equality.{nat_eq}
use lodger.Prelude.{
  ℕ, ◌+◌, ◌*◌, ◌<◌, ◌≡◌, refl, ◌↔◌, true, false, Option, none, some, List, [], ◌∷◌, arith,
}
use lodger.Tickets.{Tickets, issued, lifetime, opens, store, issue, redeem}
use lodger.Tickets.Laws.{IsBounded, Call, issues, redeems, step, run}
use lodger.Tickets.Lifetime.{Unrelated, issue-redeem}

abbrev digest : List ℕ → ℕ
digest [] = 1
digest (c ∷ cs) = c + 2_097_152 * digest cs

tickets : Unit {0}
unfolding store issue redeem step run opens get insert remove retain
tickets = tt

empty-IsBounded : IsBounded []
empty-IsBounded = record { distinct = tt; room = omega arith }

abbrev page : Option (List ℕ)
page = some (b'h' ∷ b't' ∷ [])

abbrev ticket : List ℕ
ticket = b'a' ∷ b'b' ∷ []

abbrev live : Tickets
live = (digest ticket, record { session = 1; origin = page; expires = lifetime }) ∷ []

works_once :
    ((redeem digest ticket 1 page 5 live).1 ≡ true)
    × ((redeem digest ticket 1 page 6 (redeem digest ticket 1 page 5 live).0).1 ≡ false)
    × ((redeem digest ticket 2 page 5 live).1 ≡ false)
    × ((redeem digest ticket 1 none 5 live).1 ≡ false)
    × ((redeem digest ticket 1 page lifetime live).1 ≡ false)
unfolding tickets
works_once = (refl, refl, refl, refl, refl)

first_issue : (issue digest 1 page 0 (some ticket) []).1 ≡ issued ticket
unfolding tickets
first_issue = refl

abbrev meanwhile : List Call
meanwhile = issues 2 none 3 (some (b'z' ∷ [])) ∷ redeems (b'q' ∷ []) 1 page 4 ∷ []

meanwhile-Unrelated : Unrelated digest (digest ticket) 0 meanwhile
meanwhile-Unrelated = omega arith

issue-redeem_example :
    ((redeem digest ticket 1 page 7
        (run digest (issue digest 1 page 0 (some ticket) []).0 meanwhile)).1
      ≡ true)
    ↔ ((◌≡◌ {A = ℕ} 1 1) × (page ≡ page) × (7 < 0 + lifetime))
issue-redeem_example =
    issue-redeem digest 1 1 page page 0 7 ticket [] meanwhile empty-IsBounded first_issue
      meanwhile-Unrelated (omega arith)
