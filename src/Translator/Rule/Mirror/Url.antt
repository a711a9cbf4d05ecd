-- ===== src/Translator/Rule/Mirror/Url.antt =====
-- `ProxyURL` of translator/rule.go: which links go through the mirror, and what they are then.
use cff_core.Base.{
  ℕ, String, Bool, true, false, eqb, ◌==◌, ◌≡◌, ◌≢◌, refl, sym, subst, ◌∙◌, Bool-cases, inl, inr,
  eq_iff, arith,
}
use text.Mathlib.TextLemmas.{nil-append}
use cff_core.Base.Text.{◌+++◌, trim_right, has_prefix}
use cff_core.Base.Text.Trim.{are_all, ends_in, IsTrimmed, trim_right-IsTrimmed}
use cff_core.Base.Text.Prefix.{has_prefix-split, has_prefix-other}
use cff_core.Translator.Rule.{raw_github_prefix, proxy_url}

abbrev pub is_slash : ℕ → Bool
is_slash c = eqb c 47

-- The link that a proxy makes of a link: none of its own where the proxy is empty but for slashes, or where the
-- link is not to raw.githubusercontent.com; otherwise the proxy without the slashes at its end, a slash and the link.
pub data IsMirroredUrl (proxy url url' : String) : Type 0 where
  no_proxy : are_all is_slash proxy ≡ true → url' ≡ url → IsMirroredUrl proxy url url'
  elsewhere :
      ((rest : String) → url ≢ raw_github_prefix +++ rest)
      → url' ≡ url
      → IsMirroredUrl proxy url url'
  through :
      (prefix slashes rest : String)
      → proxy ≡ prefix +++ slashes
      → are_all is_slash slashes ≡ true
      → ends_in is_slash false prefix ≡ false
      → prefix ≢ ""
      → url ≡ raw_github_prefix +++ rest
      → url' ≡ prefix +++ ("/" +++ url)
      → IsMirroredUrl proxy url url'

pub proxy_url-IsMirroredUrl : (url proxy : String) → IsMirroredUrl proxy url (proxy_url url proxy)
unfolding proxy_url
proxy_url-IsMirroredUrl url proxy =
    let prefix = trim_right is_slash proxy in
    let t : IsTrimmed is_slash proxy prefix = trim_right-IsTrimmed is_slash proxy in
    elim (Bool-cases (prefix == "")) [
      | inl e ↦
          let whole : proxy ≡ t.rest =
            t.split
            ∙ subst (λ p. p +++ t.rest ≡ t.rest) (sym ((eq_iff prefix "").0 e))
                (nil-append t.rest) in
          no_proxy (subst (λ s. are_all is_slash s ≡ true) (sym whole) t.dropped) (rw e refl)
      | inr e ↦ elim (Bool-cases (has_prefix url raw_github_prefix)) [
        | inl h ↦
            let (rest, split) = has_prefix-split url raw_github_prefix h in
            through prefix t.rest rest t.split t.dropped t.ends
              (λ q. ground (arith, e, eq_iff prefix "", q)) split (rw (e, h) refl)
        | inr h ↦ elsewhere (λ rest. has_prefix-other url raw_github_prefix rest h) (rw (e, h) refl)
      ]
    ]
