-- ===== src/Gateway/Extraction.antt =====
-- What `_extract_json` of gateway_client/client.py finds in a reply that wraps an object in prose.
use portfolio_project.Prelude.{
  ℕ, ◌≡◌, ◌∙◌, refl, ap, Bool, true, false, ◌&&◌, [], ◌∷◌, ◌++◌, ◌==◌, arith, codes, is_space,
  starts_with, if◌then◌else◌, is_empty, All,
}
use portfolio_project.Gateway.{Text}
use portfolio_project.Gateway.Json.{
  strip, strip_left, strip_right, from_open, upto_close, between_braces, extract_json,
  is_brace_open, is_brace_close,
}

from_open-strip_left :
    (p : ℕ → Bool) (t : Text) → p b'{' ≡ false → from_open (strip_left p t) ≡ from_open t
unfolding from_open strip_left
from_open-strip_left p [] h = refl
from_open-strip_left p (c ∷ t) h = ground (arith, h, from_open-strip_left p t h)

-- A character equal to one that is not stripped is not stripped.
kept : (p : ℕ → Bool) (b c : ℕ) → p b ≡ false → (c == b) ≡ true → p c ≡ false
kept p b c h e = rw (same c b e) h
  where
    same : (c b : ℕ) → (c == b) ≡ true → c ≡ b
    same c b e = ground arith

from_open-strip_right :
    (p : ℕ → Bool) (t : Text)
    → p b'{' ≡ false
    → from_open (strip_right p t) ≡ strip_right p (from_open t)
unfolding from_open strip_right
from_open-strip_right p [] h = refl
from_open-strip_right p (c ∷ t) h =
    by_rest (strip_right p t) refl (from_open-strip_right p t h) (kept p b'{' c h)
  where
    by_rest :
        (rest : Text)
        → rest ≡ strip_right p t
        → from_open rest ≡ strip_right p (from_open t)
        → ((c == b'{') ≡ true → p c ≡ false)
        → from_open (if p c && is_empty rest then [] else c ∷ rest)
          ≡ strip_right p (if is_brace_open c then c ∷ t else from_open t)
    by_rest [] r e k = ground arith
    by_rest (d ∷ rest) r e k = ground arith

upto_close-strip_right :
    (p : ℕ → Bool) (t : Text) → p b'}' ≡ false → upto_close (strip_right p t) ≡ upto_close t
unfolding upto_close strip_right
upto_close-strip_right p [] h = refl
upto_close-strip_right p (c ∷ t) h =
    by_rest (strip_right p t) (upto_close-strip_right p t h) (kept p b'}' c h)
  where
    by_rest :
        (rest : Text)
        → upto_close rest ≡ upto_close t
        → ((c == b'}') ≡ true → p c ≡ false)
        → upto_close (if p c && is_empty rest then [] else c ∷ rest) ≡ (
            if is_empty (upto_close t)
            then (if is_brace_close c then c ∷ [] else [])
            else c ∷ upto_close t)
    by_rest [] e k = ground arith
    by_rest (d ∷ rest) e k = ground arith

from_open-skips :
    (pre t : Text) → All (λ c. is_brace_open c ≡ false) pre → from_open (pre ++ b'{' ∷ t) ≡ b'{' ∷ t
unfolding from_open
from_open-skips [] t none_open = refl
from_open-skips (c ∷ pre) t (h, none_open) = rw h (from_open-skips pre t none_open)

upto_close-drops : (post : Text) → All (λ c. is_brace_close c ≡ false) post → upto_close post ≡ []
unfolding upto_close
upto_close-drops [] none_close = refl
upto_close-drops (c ∷ post) (h, none_close) = rw (upto_close-drops post none_close, h) refl

not_empty : (body : Text) (c : ℕ) → is_empty (body ++ c ∷ []) ≡ false
not_empty [] c = refl
not_empty (d ∷ body) c = refl

upto_close-keeps :
    (body post : Text)
    → All (λ c. is_brace_close c ≡ false) post
    → upto_close (body ++ b'}' ∷ post) ≡ body ++ b'}' ∷ []
unfolding upto_close
upto_close-keeps [] post none_close = rw (upto_close-drops post none_close) refl
upto_close-keeps (c ∷ body) post none_close =
    rw (upto_close-keeps body post none_close, not_empty body b'}') refl

from_open-strip : (t : Text) → from_open (strip is_space t) ≡ strip_right is_space (from_open t)
unfolding strip
from_open-strip t =
    from_open-strip_right is_space (strip_left is_space t) refl
    ∙ ap (λ (u : Text). strip_right is_space u) (from_open-strip_left is_space t refl)

-- A reply that wraps a text in braces in prose, with no opening brace before it, no closing one
-- after it and no fence at its start, gives that text.
pub extract_json_wrapped :
    (pre body post : Text)
    → All (λ c. is_brace_open c ≡ false) pre
    → All (λ c. is_brace_close c ≡ false) post
    → starts_with (codes "```") (strip is_space (pre ++ b'{' ∷ (body ++ b'}' ∷ post))) ≡ false
    → extract_json (pre ++ b'{' ∷ (body ++ b'}' ∷ post)) ≡ b'{' ∷ (body ++ b'}' ∷ [])
unfolding extract_json between_braces
extract_json_wrapped pre body post none_open none_close plain = rw (plain, found) refl
  where
    found :
        upto_close (from_open (strip is_space (pre ++ b'{' ∷ (body ++ b'}' ∷ post))))
        ≡ b'{' ∷ (body ++ b'}' ∷ [])
    found =
        rw (from_open-strip, from_open-skips pre (body ++ b'}' ∷ post) none_open)
          (upto_close-strip_right is_space (b'{' ∷ body ++ b'}' ∷ post) refl
            ∙ upto_close-keeps (b'{' ∷ body) post none_close)
