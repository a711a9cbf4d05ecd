-- ===== src/Translator/Dns/Entries/Laws.antt =====
-- The tags and detours of the servers that the sections of nameservers give.
use cff_core.Base.{
  ℕ, suc, String, Bool, true, false, not, List, [], ◌∷◌, Option, none, some, ◌==◌, leb,
  if◌then◌else◌, ◌≡◌, refl, ◌∙◌, ap, ap₂, arith, All, ◌≢◌, ◌⊎◌, inl, inr, Bool-cases,
}
use cff_core.Base.Text.{◌+++◌, trim_space, has_prefix, head}
use cff_core.Base.Text.Head.{eq-head}
use text.Mathlib.TextLemmas.{cons-append}
use cff_core.Base.Text.Decimal.{itoa_ℕ}
use cff_core.Outside.{Outside}
use cff_core.Value.{Value, Object, str, get, get_text, object_of, as_str}
use cff_core.Value.Laws.{get-put}
use cff_core.Translator.Groups.Cleanup.Pass.{tags_of}
use cff_core.Translator.Dns.Address.{Address, Params, extract_host_port}
use cff_core.Translator.Dns.Server.{
  Parsed, put_when, put_param, address_server, put_params, server_object, remote_server,
  parse_dns_server, scheme_to_dns_type,
}
use cff_core.Translator.Dns.Entries.{
  Entries, no_entries, add_entry, build_entries_from, build_dns_server_entries, count_entry,
  auto_entry, auto_bootstrap, max_bootstrap, bootstrap_tag,
}

pub get-put_when :
    (j k : String) (b : Bool) (v : Value) (m : Object)
    → (k == j) ≡ false
    → get j (put_when b k v m) ≡ get j m
unfolding put_when
get-put_when j k true v m h = rw (get-put j k v m, h) refl
get-put_when j k false v m h = refl

get-put_param :
    (j k : String) (v : Option String) (m : Object)
    → (k == j) ≡ false
    → get j (put_param v k m) ≡ get j m
unfolding put_param
get-put_param j k none m h = refl
get-put_param j k (some v) m h = rw (get-put j k (str v) m, h) refl

-- A detour that is absent or this one.
abbrev pub HasDetour : String → Object → Type 0
HasDetour detour srv = ((get_text "detour" srv == "") ≡ true) ⊎ (get_text "detour" srv ≡ detour)

pub record IsEntry (tag detour : String) (srv : Object) : Type 0 where
  pub tagged : get_text "tag" srv ≡ tag
  pub detoured : HasDetour detour srv

pub data IsParsed (tag detour : String) : Parsed → Type 0 where
  skipped : {ws : List String} → IsParsed tag detour (none, ws)
  parsed :
      {srv : Object} {ws : List String}
      → IsEntry tag detour srv
      → IsParsed tag detour (some srv, ws)

if-IsParsed :
    (tag detour : String) (b : Bool) (x y : Parsed)
    → IsParsed tag detour x
    → IsParsed tag detour y
    → IsParsed tag detour (if b then x else y)
if-IsParsed tag detour true x y h k = h
if-IsParsed tag detour false x y h k = k

detour_when :
    (detour : String) (m : Object)
    → get "detour" m ≡ none
    → HasDetour detour (put_when (not (detour == "")) "detour" (str detour) m)
unfolding put_when get_text
detour_when detour m h = elim (Bool-cases (detour == "")) [
  | inl e ↦ inl (rw (e, h) refl)
  | inr e ↦ inr (rw (e, get-put "detour" "detour" (str detour) m) refl)
]

get-put_params :
    (j type : String) (params : Params) (m : Object)
    → ("strategy" == j) ≡ false
    → ("client_subnet" == j) ≡ false
    → ("tls" == j) ≡ false
    → get j (put_params type params m) ≡ get j m
unfolding put_params
get-put_params j type params m x y z = simp (get-put_when, get-put_param, x, y, z)

address_server-tag :
    (tag type : String) (a : Address) → get_text "tag" (address_server tag type a) ≡ tag
unfolding address_server get_text get object_of
address_server-tag tag type a = simp (get-put_when)

address_server-detour :
    (tag type : String) (a : Address) → get "detour" (address_server tag type a) ≡ none
unfolding address_server get object_of
address_server-detour tag type a = simp (get-put_when)

server_object-IsEntry :
    (tag detour type : String) (a : Address) → IsEntry tag detour (server_object tag detour type a)
unfolding server_object get_text
server_object-IsEntry tag detour type a =
    let srv = address_server tag type a in
    let with_detour = put_when (not (detour == "")) "detour" (str detour) srv in
    record {
      tagged =
          ap as_str (
            get-put_params "tag" type a.params with_detour refl refl refl
            ∙ get-put_when "tag" "detour" _ _ srv refl)
          ∙ address_server-tag tag type a;
      detoured =
          rw (get-put_params "detour" type a.params with_detour refl refl refl)
            (detour_when detour srv (address_server-detour tag type a));
    }

plain-IsEntry :
    (tag detour : String) (srv : Object)
    → get_text "tag" srv ≡ tag
    → get "detour" srv ≡ none
    → IsEntry tag detour srv
unfolding get_text
plain-IsEntry tag detour srv e n = record { tagged = e; detoured = inl (rw n refl) }

module _ (o : Outside) where
  remote_server-IsParsed :
      (tag detour : String) (a : Address) → IsParsed tag detour (remote_server o tag detour a)
  unfolding remote_server
  remote_server-IsParsed tag detour a = if-IsParsed tag detour _ _ _ skipped (
      parsed {ws = []}
        (server_object-IsEntry tag detour (scheme_to_dns_type o a.scheme a.params) a))

  -- What `parseDNSServer` gives has the tag, and the detour or none.
  parse_dns_server-IsParsed :
      (url tag detour : String) → IsParsed tag detour (parse_dns_server o url tag detour)
  unfolding parse_dns_server get_text get object_of
  parse_dns_server-IsParsed url tag detour =
      let s = trim_space url in
      let plain = λ (srv : Object) (e : get_text "tag" srv ≡ tag) (n : get "detour" srv ≡ none).
        plain-IsEntry tag detour srv e n in
      if-IsParsed tag detour (s == "") _ _ skipped (
        if-IsParsed tag detour (s == "system") _ _ (parsed (plain _ refl refl)) (
          if-IsParsed tag detour (s == "fakeip") _ _ (parsed (plain _ refl refl)) (
            if-IsParsed tag detour (has_prefix s "rcode://") _ _ skipped (
              if-IsParsed tag detour (has_prefix s "dhcp://") _ _ (parsed (plain _ refl refl))
                (remote_server-IsParsed tag detour (extract_host_port o s))))))

-- A tag that is neither empty nor that of the bootstrap server.
abbrev pub IsFresh : String → Type 0
IsFresh tag = ((tag == "") ≡ false) × ((tag == bootstrap_tag) ≡ false)

pub head-IsFresh : (tag : String) → head tag ≢ 0 → head tag ≢ 98 → IsFresh tag
unfolding head
head-IsFresh tag h k = (eq-head tag "" h, eq-head tag bootstrap_tag k)

-- A section returns the tags of the servers that it appends.
pub record EntriesLaws (detour : String) (e : Entries) : Type 0 where
  pub tagged : tags_of e.servers ≡ e.tags
  pub fresh : All IsFresh e.tags
  pub detoured : All (HasDetour detour) e.servers

pub no_entries-EntriesLaws : (detour : String) → EntriesLaws detour no_entries
no_entries-EntriesLaws detour = record { tagged = refl; fresh = tt; detoured = tt }

add_entry-EntriesLaws :
    (tag detour : String) (p : Parsed) (e : Entries)
    → IsFresh tag
    → IsParsed tag detour p
    → EntriesLaws detour e
    → EntriesLaws detour (add_entry tag p e)
unfolding add_entry
add_entry-EntriesLaws tag detour (none, ws) e f skipped l = record {
  tagged = l.tagged;
  fresh = l.fresh;
  detoured = l.detoured;
}
add_entry-EntriesLaws tag detour (some srv, ws) e f (parsed p) l = record {
  tagged = ap₂ ◌∷◌ p.tagged l.tagged;
  fresh = (f, l.fresh);
  detoured = (p.detoured, l.detoured);
}

module _ (o : Outside) where
  build_entries_from-EntriesLaws :
      (i : ℕ) (servers : List String) (prefix detour : String)
      → ((s : String) → IsFresh (prefix +++ s))
      → EntriesLaws detour (build_entries_from o i servers prefix detour)
  unfolding build_entries_from
  build_entries_from-EntriesLaws i [] prefix detour f = no_entries-EntriesLaws detour
  build_entries_from-EntriesLaws i (ns ∷ servers) prefix detour f =
      let tag = prefix +++ itoa_ℕ i in
      add_entry-EntriesLaws tag detour _ _ (f (itoa_ℕ i))
        (parse_dns_server-IsParsed o ns tag detour)
        (build_entries_from-EntriesLaws (suc i) servers prefix detour f)

  pub build_dns_server_entries-EntriesLaws :
      (servers : List String) (prefix detour : String)
      → ((s : String) → IsFresh (prefix +++ s))
      → EntriesLaws detour (build_dns_server_entries o servers prefix detour)
  unfolding build_dns_server_entries
  build_dns_server_entries-EntriesLaws servers prefix detour f =
      build_entries_from-EntriesLaws 0 servers prefix detour f

  auto_entry-IsParsed : (ns tag : String) → IsParsed tag "" (auto_entry o ns tag)
  unfolding auto_entry
  auto_entry-IsParsed ns tag =
      if-IsParsed tag "" _ _ _ (parse_dns_server-IsParsed o ns tag "") skipped

  auto_tag-IsFresh : (n : ℕ) → IsFresh ("def-auto-" +++ itoa_ℕ n)
  unfolding head
  auto_tag-IsFresh n =
      head-IsFresh ("def-auto-" +++ itoa_ℕ n) (rw cons-append (omega arith))
        (rw cons-append (omega arith))

  pub auto_bootstrap-EntriesLaws :
      (n : ℕ) (servers : List String) → EntriesLaws "" (auto_bootstrap o n servers)
  unfolding auto_bootstrap
  auto_bootstrap-EntriesLaws n [] = no_entries-EntriesLaws ""
  auto_bootstrap-EntriesLaws n (ns ∷ servers) =
      let tag = "def-auto-" +++ itoa_ℕ n in
      let result = auto_entry o ns tag in
      elim (Bool-cases (leb max_bootstrap n)) [
        | inl e ↦ rw e (no_entries-EntriesLaws "")
        | inr e ↦ rw e (
            add_entry-EntriesLaws tag "" result _ (auto_tag-IsFresh n) (auto_entry-IsParsed ns tag)
              (auto_bootstrap-EntriesLaws (count_entry result n) servers))
      ]
