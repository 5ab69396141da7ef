-- ===== src/Power/Laws.antt =====
-- The names of the power actions and the states that they fit: crates/lodger-virt/src/power.rs.
use lodger.Prelude.Equality.{text_beq_iff}
use lodger.Prelude.{ℕ, Bool, true, false, List, none, some, ◌≡◌, refl, ap, ◌∙◌, ◌↔◌, arith}
use lodger.Power.{
  VmState, running, paused, Power, start, shutdown, force_off, reboot, pause, resume, name, parse,
  refusal, refuse_stopped,
}

parse-name : (p : Power) → parse (name p) ≡ some p
unfolding parse name
parse-name start = refl
parse-name shutdown = refl
parse-name force_off = refl
parse-name reboot = refl
parse-name pause = refl
parse-name resume = refl

-- `parse` gives an action exactly for its name.
pub parse_iff : (given : List ℕ) (p : Power) → (parse given ≡ some p) ↔ (given ≡ name p)
unfolding parse name
parse_iff given p = (grind (arith, text_beq_iff), λ e. ap parse e ∙ parse-name p)

-- The domains that an action fits: the state and whether the domain is active.
abbrev pub Fits : Power → VmState → Bool → Type 0
Fits start state active = active ≡ false
Fits shutdown state active = active ≡ true
Fits force_off state active = active ≡ true
Fits reboot state active = state ≡ running
Fits pause state active = state ≡ running
Fits resume state active = state ≡ paused

-- `refusal` gives no reason exactly for the domains that the action fits.
pub refusal_iff :
    (p : Power) (state : VmState) (active : Bool)
    → (refusal p state active ≡ none) ↔ Fits p state active
unfolding refusal refuse_stopped
refusal_iff p state active = grind arith
