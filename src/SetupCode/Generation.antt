-- ===== src/SetupCode/Generation.antt =====
-- mash-go/pkg/commissioning/setupcode.go: the generation of setup codes.
use mash.Base.{
  ℕ, zero, suc, ◌+◌, ◌≤◌, ◌≡◌, refl, sym, ◌∙◌, subst, inl, inr, ◌||◌, Option, none, some, arith,
  Bool-cases, Option-cases, ltb, none-ne-some,
}
use mash.SetupCode.{
  out_of_range, validate, generate_loop, generate_setup_code, next_round, setup_code_min,
  setup_code_max, parse_setup_code, setup_code_string,
}
use mash.SetupCode.Codes.{parse_setup_code-setup_code_string}

-- A code that Validate passes, and whose text is read back.
abbrev pub IsGood : ℕ → Type 0
IsGood code = (validate code ≡ none) × (parse_setup_code (setup_code_string code) ≡ some code)

validate_bound : (code : ℕ) → validate code ≡ none → code ≤ 99999999
unfolding validate
validate_bound code h = elim (Bool-cases (ltb code setup_code_min || ltb setup_code_max code)) [
  | inl e ↦ absurd (none-ne-some {a = out_of_range} (sym h ∙ rw e refl))
  | inr e ↦ ground arith
]

valid-IsGood : (code : ℕ) → validate code ≡ none → IsGood code
valid-IsGood code h = (h, parse_setup_code-setup_code_string code (validate_bound code h))

next_round-IsGood :
    (o rest : Option ℕ) (code : ℕ)
    → ((c : ℕ) → rest ≡ some c → IsGood c)
    → next_round o rest ≡ some code
    → IsGood code
next_round-IsGood none rest code ih h = absurd (none-ne-some h)
next_round-IsGood (some n) rest code ih h = elim (Option-cases (validate (n + setup_code_min))) [
  | inl e ↦
      let found : some (n + setup_code_min) ≡ some code = rw e at h in
      let same : n + setup_code_min ≡ code = cc in
      subst IsGood same (valid-IsGood (n + setup_code_min) e)
  | inr (x, e) ↦ ih code (rw e at h)
]

generate_loop-IsGood :
    (rounds : ℕ) (draw : ℕ → Option ℕ) (round code : ℕ)
    → generate_loop rounds draw round ≡ some code
    → IsGood code
unfolding generate_loop
generate_loop-IsGood zero draw round code h = absurd (none-ne-some h)
generate_loop-IsGood (suc rounds) draw round code h =
    next_round-IsGood (draw round) (generate_loop rounds draw (suc round)) code
      (λ c e. generate_loop-IsGood rounds draw (suc round) c e) h

-- Whatever numbers are drawn, a setup code that is generated passes the checks of range and of
-- prohibited codes, and its text of eight digits is read back as the code.
pub generate_setup_code-IsGood :
    (draw : ℕ → Option ℕ) (code : ℕ) → generate_setup_code draw ≡ some code → IsGood code
unfolding generate_setup_code
generate_setup_code-IsGood draw code h = generate_loop-IsGood 10 draw 0 code h
