-- ===== src/Gateway/Json.antt =====
-- `_extract_json` of gateway_client/client.py.
use portfolio_project.Prelude.{
  ℕ, Bool, ◌&&◌, [], ◌∷◌, ◌==◌, codes, is_space, starts_with, drop, if◌then◌else◌, is_empty,
}
use portfolio_project.Gateway.{Text}

-- `lstrip` of the characters that pass.
unfoldable pub strip_left : (ℕ → Bool) → Text → Text
strip_left p [] = []
strip_left p (c ∷ cs) = if p c then strip_left p cs else c ∷ cs

-- `rstrip` of the characters that pass.
unfoldable pub strip_right : (ℕ → Bool) → Text → Text
strip_right p [] = []
strip_right p (c ∷ cs) =
    let rest = strip_right p cs in if p c && is_empty rest then [] else c ∷ rest

unfoldable pub strip : (ℕ → Bool) → Text → Text
unfolding strip_left strip_right
strip p text = strip_right p (strip_left p text)

abbrev pub is_brace_open : ℕ → Bool
is_brace_open c = c == b'{'

abbrev pub is_brace_close : ℕ → Bool
is_brace_close c = c == b'}'

abbrev is_tick : ℕ → Bool
is_tick c = c == b'`'

-- `text[text.find("{"):]`, and `text[: text.rfind("}") + 1]` of what is left: empty where there is
-- no brace.
unfoldable pub from_open : Text → Text
from_open [] = []
from_open (c ∷ cs) = if is_brace_open c then c ∷ cs else from_open cs

unfoldable pub upto_close : Text → Text
upto_close [] = []
upto_close (c ∷ cs) =
    let rest = upto_close cs in
    if is_empty rest then (if is_brace_close c then c ∷ [] else []) else c ∷ rest

unfoldable pub without_tag : Text → Text
unfolding starts_with
without_tag text = if starts_with (codes "json") text then drop 4 text else text

-- The part between the first opening and the last closing brace, where they stand in this order.
unfoldable pub between_braces : Text → Text
unfolding from_open upto_close
between_braces text =
    if is_empty (upto_close (from_open text)) then text else upto_close (from_open text)

unfoldable pub extract_json : Text → Text
unfolding strip without_tag between_braces starts_with
extract_json content =
    let text = strip is_space content in
    if starts_with (codes "```") text
    then strip is_space (without_tag (strip is_tick text))
    else between_braces text
