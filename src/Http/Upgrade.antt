-- ===== src/Http/Upgrade.antt =====
-- Reading the token of an upgrade (`RingUpgradeKind::parse`).
use impulse_ring.Prelude.{
  ℕ, ◌≡◌, refl, ap, sym, ◌∙◌, Bool, true, not, ◌&&◌, [], ◌∷◌, ◌++◌, some, Str, nat_eq, arith,
  str_eqb,
}
use impulse_ring.Http.{
  RingUpgradeKind, sse, web_socket, web_transport, as_str, is_space, trim_start, trim_end,
  to_ascii_lowercase, kind_of_token, parse,
}

abbrev all_spaces : Str → Bool
all_spaces [] = true
all_spaces (c ∷ s) = is_space c && all_spaces s

abbrev no_space : Str → Bool
no_space [] = true
no_space (c ∷ s) = not (is_space c) && no_space s

trim_start-spaces :
    (front s : Str) → all_spaces front ≡ true → trim_start (front ++ s) ≡ trim_start s
unfolding trim_start
trim_start-spaces [] s h = refl
trim_start-spaces (c ∷ front) s h = ground (arith, trim_start-spaces front s)

trim_end-spaces : (back : Str) → all_spaces back ≡ true → trim_end back ≡ []
unfolding trim_end
trim_end-spaces [] h = refl
trim_end-spaces (c ∷ back) h = ground (arith, trim_end-spaces back)

trim_end-word :
    (word back : Str)
    → no_space word ≡ true
    → all_spaces back ≡ true
    → trim_end (word ++ back) ≡ word
unfolding trim_end
trim_end-word [] back w h = trim_end-spaces back h
trim_end-word (c ∷ word) back w h = ground (arith, trim_end-word word back)

trim_start-word :
    (c : ℕ) (word s : Str)
    → no_space (c ∷ word) ≡ true
    → trim_start ((c ∷ word) ++ s) ≡ (c ∷ word) ++ s
unfolding trim_start
trim_start-word c word s w = ground arith

no_space-lower : (s : Str) → no_space (to_ascii_lowercase s) ≡ true → no_space s ≡ true
no_space-lower [] h = refl
no_space-lower (c ∷ s) h = ground (arith, no_space-lower s)

kind_of_token-as_str : (k : RingUpgradeKind) → kind_of_token (as_str k) ≡ some k
unfolding kind_of_token as_str str_eqb
kind_of_token-as_str sse = refl
kind_of_token-as_str web_socket = refl
kind_of_token-as_str web_transport = refl

no_space-as_str : (k : RingUpgradeKind) → no_space (as_str k) ≡ true
unfolding as_str
no_space-as_str sse = refl
no_space-as_str web_socket = refl
no_space-as_str web_transport = refl

as_str-ne-nil : (k : RingUpgradeKind) → ¬ (as_str k ≡ [])
unfolding as_str
as_str-ne-nil sse h = cc
as_str-ne-nil web_socket h = cc
as_str-ne-nil web_transport h = cc

-- The token of a kind, in any mix of cases and between any spaces, is read as that kind.
parse-as_str :
    (k : RingUpgradeKind) (front token back : Str)
    → all_spaces front ≡ true
    → all_spaces back ≡ true
    → to_ascii_lowercase token ≡ as_str k
    → parse (front ++ (token ++ back)) ≡ some k
unfolding parse
parse-as_str k front [] back f b e = absurd (as_str-ne-nil k (sym e))
parse-as_str k front (c ∷ word) back f b e =
    let clean : no_space (c ∷ word) ≡ true =
      no_space-lower (c ∷ word) (ap no_space e ∙ no_space-as_str k) in
    let trimmed : trim_end (trim_start (front ++ ((c ∷ word) ++ back))) ≡ c ∷ word =
      ap trim_end (trim_start-spaces front _ f ∙ trim_start-word c word back clean)
      ∙ trim_end-word (c ∷ word) back clean b in
    ap (λ t. kind_of_token (to_ascii_lowercase t)) trimmed
    ∙ ap kind_of_token e
    ∙ kind_of_token-as_str k
