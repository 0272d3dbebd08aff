-- ===== src/Snippet/Front.antt =====
-- `ExtractSnippet` where no match is known: the front of the content.
use gist.Prelude.{
  ℕ, ◌≤◌, ◌<◌, ◌≡◌, ◌-◌, refl, sym, inl, inr, [], ◌∷◌, leb, arith, length, take, take-length,
  if_cases, Bool-cases, ℤ, false,
}
use gist.Text.{Bytes}
use gist.Snippet.{max_len_of, extract_snippet, snippet_of}
use gist.Snippet.Trim.{move_start, move_end, drop_spaces, trim_to_word_boundary}
use gist.Snippet.Boundary.{drop_spaces_lem, move_end_lem}

-- The text is the first `kept` bytes of the content, at most `n`, and all of a content that is not
-- longer.
pub record IsFrontOf (content : Bytes) (n : ℕ) (t : Bytes) : Type 0 where
  pub kept : ℕ
  pub front : t ≡ take kept content
  pub within : kept ≤ n
  pub whole : length content ≤ n → t ≡ content

long-IsFrontOf :
    (content : Bytes) (n kept : ℕ)
    → n < length content
    → kept ≤ n
    → IsFrontOf content n (take kept content)
long-IsFrontOf content n kept long h = record {
  kept = kept;
  front = refl;
  within = h;
  whole = λ short. absurd (omega arith);
}

trim-IsFrontOf :
    (content : Bytes) (n : ℕ)
    → n < length content
    → IsFrontOf content n (trim_to_word_boundary content 0 n)
unfolding trim_to_word_boundary move_start
trim-IsFrontOf content n long =
    let last = move_end content 0 n in
    let stop = drop_spaces content (last - 0) last in
    let high = move_end_lem content 0 n in
    let trimmed = drop_spaces_lem content (last - 0) 0 last high.1 in
    let inside : leb (length content) n ≡ false = ground arith in
    let no_offset : stop - 0 ≡ stop = omega arith in
    rw inside (
      if_cases (IsFrontOf content n) (leb last 0)
        (λ _. long-IsFrontOf content n 0 long (omega arith))
        (λ _.
          if_cases (IsFrontOf content n) (leb stop 0)
            (λ _. long-IsFrontOf content n 0 long (omega arith))
            (λ _.
              rw no_offset
                (long-IsFrontOf content n stop long (omega (arith, high.0, trimmed.0))))))

pub extract_snippet-IsFrontOf :
    (content : Bytes) (max_len : ℤ)
    → IsFrontOf content (max_len_of max_len) (extract_snippet content [] max_len)
unfolding extract_snippet snippet_of
extract_snippet-IsFrontOf [] max_len = record {
  kept = 0;
  front = refl;
  within = omega arith;
  whole = λ short. refl;
}
extract_snippet-IsFrontOf (c ∷ s) max_len =
    elim (Bool-cases (leb (length (c ∷ s)) (max_len_of max_len))) [
      | inl short ↦ rw short (record {
        kept = length (c ∷ s);
        front = sym (take-length (c ∷ s));
        within = ground arith;
        whole = λ _. refl;
      })
      | inr long ↦ rw long (trim-IsFrontOf (c ∷ s) (max_len_of max_len) (ground arith))
    ]
