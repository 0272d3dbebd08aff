-- ===== src/Snippet/Budget.antt =====
-- The estimate of tokens, and the trimming of a text to a budget of them.
use gist.Prelude.{
  ℕ, zero, suc, ◌*◌, ◌≤◌, ◌<◌, ◌≡◌, refl, sym, ◌≢◌, [], leb, arith, length, length-take, take,
  take-length, Bool-cases, ◌^◌, Option, some, false, ℤ, pos, negsuc, pos_part, ◌==◌, inl, inr,
}
use gist.Text.{Bytes}
use gist.Snippet.{budget_bytes, estimate_tokens, trim_to_token_budget, back_to_space}

-- An estimate is at most `n` exactly when the text has at most `4 n` bytes.
pub estimate_tokens-le : (t : Bytes) (n : ℕ) → length t ≤ n * 4 → estimate_tokens t ≤ n
unfolding estimate_tokens
estimate_tokens-le t n h = ground arith

pub le_of_estimate_tokens : (t : Bytes) (n : ℕ) → estimate_tokens t ≤ n → length t ≤ n * 4
unfolding estimate_tokens
le_of_estimate_tokens t n h = ground arith

back_to_space-le : (t : Bytes) (n : ℕ) → back_to_space t n ≤ n
unfolding back_to_space
back_to_space-le t zero = omega arith
back_to_space-le t (suc n) = ground (arith, back_to_space-le t n)

-- What a trimmed text is to the text and the budget.
pub record FitsBudget (text : Bytes) (n : ℤ) (trimmed : Bytes) : Type 0 where
  pub kept : ℕ
  pub is_front : trimmed ≡ take kept text
  pub within : estimate_tokens trimmed ≤ pos_part n
  pub unchanged : estimate_tokens text ≤ pos_part n → trimmed ≡ text
  pub some_bytes : 0 < pos_part n → text ≢ [] → 0 < length trimmed

trim_long :
    (text : Bytes) (n k : ℕ)
    → k ≤ n * 4
    → 0 < k
    → n * 4 < length text
    → FitsBudget text (pos n) (take k text)
trim_long text n k h p long = record {
  kept = k;
  is_front = refl;
  within = estimate_tokens-le (take k text) n (omega (arith, length-take k text));
  unchanged = λ small. absurd (omega (arith, le_of_estimate_tokens text n small));
  some_bytes = λ _ _. omega (arith, length-take k text);
}

trim_nothing : (text : Bytes) (n : ℤ) → pos_part n ≡ 0 → FitsBudget text n []
unfolding estimate_tokens
trim_nothing text n e = record {
  kept = 0;
  is_front = refl;
  within = omega arith;
  unchanged = λ small. ground (arith, le_of_estimate_tokens text (pos_part n) small);
  some_bytes = λ h _. absurd (omega arith);
}

-- A call that returns a text that fits, and does not panic.
abbrev pub Trims : Bytes → ℤ → Option Bytes → Type 0
Trims text n o = (t : Bytes) × (o ≡ some t) × FitsBudget text n t

-- Below 2^61 tokens the number of bytes is not wrapped round.
budget_bytes_lem :
    (n : ℕ) → n < 2 ^ 61 → (budget_bytes (pos n) ≡ n * 4) × (leb (2 ^ 63) (n * 4) ≡ false)
budget_bytes_lem n h = (omega arith, ground arith)

-- For a budget below 2^61 tokens (from there on `maxTokens * 4` overflows an int) the call does not
-- panic; the trimmed text is a front of the text that costs at most the budget, it is the whole
-- text where that fits, and for a positive budget it is empty for the empty text only.
pub trim_to_token_budget_fits :
    (text : Bytes) (n : ℤ) → pos_part n < 2 ^ 61 → Trims text n (trim_to_token_budget text n)
unfolding trim_to_token_budget
trim_to_token_budget_fits text (negsuc n) small = ([], refl, trim_nothing text (negsuc n) refl)
trim_to_token_budget_fits text (pos zero) small = ([], refl, trim_nothing text (pos 0) refl)
trim_to_token_budget_fits text (pos (suc n)) small =
    let (bytes, no_wrap) = budget_bytes_lem (suc n) small in
    rw (bytes, no_wrap)
      (elim (Bool-cases (leb (length text) (suc n * 4))) [
        | inl fits ↦ rw fits (
          text,
          refl,
          record {
            kept = length text;
            is_front = sym (take-length text);
            within = estimate_tokens-le text (suc n) (ground arith);
            unchanged = λ _. refl;
            some_bytes = λ _ h. ground arith;
          },
        )
        | inr long ↦ elim (Bool-cases (back_to_space text (suc n * 4) == 0)) [
          | inl word ↦
              rw (long, word)
                (
                  _,
                  refl,
                  trim_long text (suc n) (suc n * 4) (omega arith) (omega arith) (ground arith),
                )
          | inr space ↦
              rw (long, space)
                (
                  _,
                  refl,
                  trim_long text (suc n) _ (back_to_space-le text (suc n * 4)) (ground arith)
                      (ground arith),
                )
        ]
      ])
