-- ===== src/Policy.antt =====
-- security.go: the policy that code is checked against before it runs. An error is the reason.
mod Tests
use gist.Prelude.{
  ℕ, ◌≡◌, ◌≢◌, refl, ◌↔◌, ◌⊎◌, inl, inr, List, [], ◌∷◌, Bool, true, false, ◌&&◌, ◌||◌, not, arith,
  All, Any, Option, none, some, Bool-cases, if_cases, if◌then◌else◌,
}
use gist.Text.{Bytes, codes, bytes_eq, is_empty, contains, trim_space, fields}
use gist.Text.Laws.{bytes_eq→eq, eq→bytes_eq, Occurs, contains→Occurs, Occurs→contains}

pub record Policy : Type 0 where
  pub allowed_commands : List Bytes
  pub denied_patterns : List Bytes
  pub max_output_bytes : ℕ

-- `nil`, or the error with the pattern or the command that it names.
pub data Verdict : Type 0 where
  accepted : Verdict
  denied : Bytes → Verdict
  not_allowed : Bytes → Verdict

unfoldable pub default_policy : Policy
default_policy = record {
  allowed_commands = [];
  denied_patterns =
      codes "rm -rf /"
      ∷ codes "rm -rf /*"
      ∷ codes "sudo "
      ∷ codes "chmod 777"
      ∷ codes "mkfs."
      ∷ codes ":(){:|:&};:"
      ∷ codes "> /dev/sda"
      ∷ codes "dd if=/dev/zero"
      ∷ codes "curl | sh"
      ∷ codes "curl | bash"
      ∷ codes "wget | sh"
      ∷ codes "wget | bash"
      ∷ [];
  max_output_bytes = 1_048_576;
}

unfoldable pub is_shell_lang : Bytes → Bool
is_shell_lang lang =
    bytes_eq lang (codes "sh") || (bytes_eq lang (codes "bash") || bytes_eq lang (codes "shell"))

abbrev pub first_of_fields : List Bytes → Bytes
first_of_fields [] = []
first_of_fields (w ∷ ws) = w

unfoldable pub first_token : Bytes → Bytes
first_token s =
    let trimmed = trim_space s in if is_empty trimmed then [] else first_of_fields (fields trimmed)

unfoldable pub is_allowed : List Bytes → Bytes → Bool
is_allowed [] word = false
is_allowed (c ∷ cs) word = if bytes_eq word c then true else is_allowed cs word

-- The check of the first command, of shell code only.
unfoldable pub check_command : List Bytes → Bytes → Bytes → Verdict
unfolding is_allowed
check_command allowed lang text =
    let word = first_token text in
    if not (is_empty allowed) && is_shell_lang lang
    then if is_empty word
      then accepted
      else if is_allowed allowed word
      then accepted
      else not_allowed word
    else accepted

module _ (to_lower : Bytes → Bytes) where
  -- The loop over the denied patterns, then what follows it.
  unfoldable pub check_patterns : List Bytes → Bytes → Verdict → Verdict
  check_patterns [] lower next = next
  check_patterns (p ∷ ps) lower next =
      let rest = check_patterns ps lower next in
      if contains lower (to_lower p) then denied p else rest

  -- `Policy.Check`; no policy accepts everything.
  unfoldable pub check : Option Policy → Bytes → Bytes → Verdict
  unfolding check_patterns check_command
  check none lang text = accepted
  check (some p) lang text =
      check_patterns p.denied_patterns (to_lower text) (check_command p.allowed_commands lang text)

  -- The code holds no denied pattern, and its command may run.
  pub record Passes (p : Policy) (lang text : Bytes) : Type 0 where
    pub no_pattern : All (λ d. ¬ Occurs (to_lower d) (to_lower text)) p.denied_patterns
    pub command :
        (p.allowed_commands ≡ [])
        ⊎ ((is_shell_lang lang ≡ false)
            ⊎ ((first_token text ≡ []) ⊎ Any (λ c. first_token text ≡ c) p.allowed_commands))

  is_allowed_iff : (cs : List Bytes) (w : Bytes) → (is_allowed cs w ≡ true) ↔ Any (λ c. w ≡ c) cs
  unfolding is_allowed
  is_allowed_iff [] w = (λ h. absurd (cc), λ h. absurd h)
  is_allowed_iff (c ∷ cs) w =
      let (sound, complete) = is_allowed_iff cs w in
      (λ h. ground (arith, bytes_eq→eq w c, sound), λ h. ground (arith, eq→bytes_eq w c, complete))

  check_patterns_iff :
      (ps : List Bytes) (lower : Bytes) (next : Verdict)
      → (check_patterns ps lower next ≡ accepted)
        ↔ (All (λ d. ¬ Occurs (to_lower d) lower) ps × (next ≡ accepted))
  unfolding check_patterns
  check_patterns_iff [] lower next = (λ h. (tt, h), λ h. h.1)
  check_patterns_iff (p ∷ ps) lower next =
      let (sound, complete) = check_patterns_iff ps lower next in
      elim (Bool-cases (contains lower (to_lower p))) [
        | inl hit ↦
            rw hit (λ h. absurd (cc), λ h. absurd (h.0.0 (contains→Occurs lower (to_lower p) hit)))
        | inr miss ↦ rw miss (
          λ h. ((λ o. cc (Occurs→contains lower (to_lower p) o), (sound h).0), (sound h).1),
          λ h. complete (h.0.1, h.1),
        )
      ]

  abbrev MayRun : List Bytes → Bytes → Bytes → Type 0
  MayRun allowed lang text =
      (allowed ≡ [])
      ⊎ ((is_shell_lang lang ≡ false)
          ⊎ ((first_token text ≡ []) ⊎ Any (λ c. first_token text ≡ c) allowed))

  run_word :
      (w : Bytes) (a : Bool)
      → ((if is_empty w then accepted else if a then accepted else not_allowed w) ≡ accepted)
        ↔ ((w ≡ []) ⊎ (a ≡ true))
  run_word [] a = (λ h. inl refl, λ h. refl)
  run_word (b ∷ w) true = (λ h. inr refl, λ h. refl)
  run_word (b ∷ w) false =
      (λ h. absurd (cc), λ h. elim h [ inl e ↦ absurd (cc e) | inr e ↦ absurd (cc e) ])

  check_command_iff :
      (allowed : List Bytes) (lang text : Bytes)
      → (check_command allowed lang text ≡ accepted) ↔ MayRun allowed lang text
  unfolding check_command
  check_command_iff [] lang text = (λ h. inl refl, λ h. refl)
  check_command_iff (c ∷ cs) lang text =
      let (sound, complete) = is_allowed_iff (c ∷ cs) (first_token text) in
      elim (Bool-cases (is_shell_lang lang)) [
        | inl shell ↦
            let (runs, runs') =
              run_word (first_token text) (is_allowed (c ∷ cs) (first_token text)) in
            rw shell (
              λ h. elim (runs h) [ inl e ↦ inr (inr (inl e)) | inr a ↦ inr (inr (inr (sound a))) ],
              λ h. elim h [
                | inl e ↦ absurd (cc e)
                | inr (inl e) ↦ absurd (cc e)
                | inr (inr (inl e)) ↦ runs' (inl e)
                | inr (inr (inr a)) ↦ runs' (inr (complete a))
              ],
            )
        | inr other ↦ rw other (λ h. inr (inl refl), λ h. refl)
      ]

  -- A policy accepts code exactly when no denied pattern occurs in it, both in lower case, and
  -- its command may run: there is no list of commands, or the language is no shell, or the code
  -- has no first token, or that token is on the list.
  pub check_iff :
      (p : Policy) (lang text : Bytes) → (check (some p) lang text ≡ accepted) ↔ Passes p lang text
  unfolding check
  check_iff p lang text =
      let (sound, complete) =
        check_patterns_iff p.denied_patterns (to_lower text)
          (check_command p.allowed_commands lang text) in
      let (runs, runs') = check_command_iff p.allowed_commands lang text in
      (
        λ h. record { no_pattern = (sound h).0; command = runs (sound h).1 },
        λ h. complete (h.no_pattern, runs' h.command),
      )
