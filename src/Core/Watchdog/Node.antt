-- ===== src/Core/Watchdog/Node.antt =====
-- `currentProxyNode` (core/watchdog.go): from the default outbound along what the groups have selected.
-- The outbound manager of sing-box is a parameter: its default outbound and its lookup by tag.
use cff_core.Base.{
  ℕ, zero, suc, String, Bool, false, ◌||◌, [], Option, none, some, if◌then◌else◌, ◌==◌, ◌≡◌, refl,
  subst, some-eq-some, ◌⊎◌, Bool-cases, Option-cases, inl, inr,
}
use cff_core.Base.StringSet.{StringSet, has, insert}

-- `adapter.Outbound`: `now` is what an outbound that is a group has selected.
pub record Outbound : Type 0 where
  pub type : String
  pub tag : String
  pub now : Option String

-- `C.TypeDirect`, `C.TypeBlock` and `C.TypeDNS`.
abbrev pub is_no_proxy : String → Bool
is_no_proxy type = type == "direct" || (type == "block" || type == "dns")

abbrev pub max_proxy_depth : ℕ
max_proxy_depth = 16

-- What one round of the loop says: the node, that there is none, or the next outbound and the tags seen.
pub data Round : Type 0 where
  node : Outbound → Round
  no_node : Round
  next : Outbound → StringSet → Round

abbrev pub found : Option Outbound → StringSet → Round
found none seen = no_node
found (some out) seen = next out seen

module _ (find : String → Option Outbound) where
  abbrev pub select : Outbound → StringSet → Option String → Round
  select out seen none = node out
  select out seen (some now) =
      if has out.tag seen
      then no_node
      else if now == "" || now == out.tag
      then no_node
      else found (find now) (insert out.tag seen)

  -- The body of the loop.
  unfoldable pub round : Outbound → StringSet → Round
  unfolding has insert
  round out seen = if is_no_proxy out.type then no_node else select out seen out.now

  -- The loop: as many rounds as are left.
  unfoldable pub walk : ℕ → Outbound → StringSet → Option Outbound
  unfolding round
  walk zero out seen = none
  walk (suc n) out seen = elim (round out seen) [
    | node leaf ↦ some leaf
    | no_node ↦ none
    | next out' seen' ↦ walk n out' seen'
  ]

  -- `currentProxyNode`
  unfoldable pub current_proxy_node : Option Outbound → Option Outbound
  unfolding walk
  current_proxy_node none = none
  current_proxy_node (some default) = walk max_proxy_depth default []

  -- The outbound is reached from another along the selections of groups.
  pub data Selects : Outbound → Outbound → Type 0 where
    here : (out : Outbound) → Selects out out
    group :
        (out out' leaf : Outbound) (now : String)
        → out.now ≡ some now
        → find now ≡ some out'
        → Selects out' leaf
        → Selects out leaf

  pub record IsNode (default leaf : Outbound) : Type 0 where
    pub proxy : is_no_proxy leaf.type ≡ false
    pub no_group : leaf.now ≡ none
    pub selected : Selects default leaf

  abbrev RoundLaws : Outbound → Round → Type 0
  RoundLaws out (node leaf) = IsNode out leaf
  RoundLaws out no_node = Unit
  RoundLaws out (next out' seen) = (now : String) × (out.now ≡ some now) × (find now ≡ some out')

  select-RoundLaws :
      (out : Outbound) (seen : StringSet) (selected : Option String)
      → is_no_proxy out.type ≡ false
      → out.now ≡ selected
      → RoundLaws out (select out seen selected)
  select-RoundLaws out seen none p e = record { proxy = p; no_group = e; selected = here out }
  select-RoundLaws out seen (some now) p e = elim (Bool-cases (has out.tag seen)) [
    | inl h ↦ rw h tt
    | inr h ↦ elim (Bool-cases (now == "" || now == out.tag)) [
      | inl g ↦ rw (h, g) tt
      | inr g ↦ elim (Option-cases (find now)) [
        | inl f ↦ rw (h, g, f) tt
        | inr (out', f) ↦ rw (h, g, f) (now, e, f)
      ]
    ]
  ]

  round-RoundLaws : (out : Outbound) (seen : StringSet) → RoundLaws out (round out seen)
  unfolding round
  round-RoundLaws out seen = elim (Bool-cases (is_no_proxy out.type)) [
    | inl p ↦ rw p tt
    | inr p ↦ rw p (select-RoundLaws out seen out.now p refl)
  ]

  group-IsNode :
      (out out' leaf : Outbound)
      → (now : String) × (out.now ≡ some now) × (find now ≡ some out')
      → IsNode out' leaf
      → IsNode out leaf
  group-IsNode out out' leaf (now, e, f) h = record {
    proxy = h.proxy;
    no_group = h.no_group;
    selected = group out out' leaf now e f h.selected;
  }

  Round-cases :
      (r : Round)
      → ((leaf : Outbound) × (r ≡ node leaf))
        ⊎ ((r ≡ no_node) ⊎ ((out' : Outbound) × (seen : StringSet) × (r ≡ next out' seen)))
  Round-cases (node leaf) = inl (leaf, refl)
  Round-cases no_node = inr (inl refl)
  Round-cases (next out' seen) = inr (inr (out', seen, refl))

  walk-IsNode :
      (n : ℕ) (out leaf : Outbound) (seen : StringSet)
      → walk n out seen ≡ some leaf
      → IsNode out leaf
  unfolding walk
  walk-IsNode zero out leaf seen h = cc
  walk-IsNode (suc n) out leaf seen h =
      let laws = round-RoundLaws out seen in
      elim (Round-cases (round out seen)) [
        | inl (leaf', e) ↦
            let same : leaf' ≡ leaf = some-eq-some (rw (e, walk) at h) in
            subst (IsNode out) same (subst (RoundLaws out) e laws)
        | inr (inl e) ↦ cc (rw (e, walk) at h)
        | inr (inr (out', seen', e)) ↦
            group-IsNode out out' leaf (subst (RoundLaws out) e laws)
              (walk-IsNode n out' leaf seen' (rw (e, walk) at h))
      ]

  -- What `current_proxy_node` returns is no direct, block or DNS outbound and no group, and it is reached from
  -- the default outbound along what the groups on the way have selected.
  pub current_proxy_node-IsNode :
      (default leaf : Outbound)
      → current_proxy_node (some default) ≡ some leaf
      → IsNode default leaf
  unfolding current_proxy_node
  current_proxy_node-IsNode default leaf h = walk-IsNode max_proxy_depth default leaf [] h
