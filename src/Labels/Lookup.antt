-- ===== src/Labels/Lookup.antt =====
-- Labels of asm/labels.c that are looked up after their definition.
use nasm.Prelude.{
  ℕ, ◌+◌, ◌≡◌, refl, sym, ap, ◌∙◌, Bool, true, false, List, [], ◌∷◌, ◌++◌, get_elem?, none, some,
  ◌==◌, arith, if◌then◌else◌,
}
use mathlib.Core.Path.{subst}
use nasm.Nasmlib.Crc.{crc64b}
use nasm.Nasmlib.Hashtbl.{crc64_init, same_key}
use nasm.Nasmlib.Hashtbl.Map.{IsHashTable}
use nasm.Nasmlib.Strlist.Unique.{position, get}
use nasm.Labels.{
  LabelType, lbl_common, same_type, Label, Symbols, Env, full_name, find_label, put_label, referred,
  looked_up, lookup_label,
}
use nasm.Labels.Define.{
  Definition, targeted, located, based, written, sent, recorded, define_at, define_found,
  define_label,
}
use nasm.Labels.Sites.{SameSite, sent-SameSite}
use nasm.Labels.Steps.{Underway, targeted-Underway, located-Underway, based-Underway}
use nasm.Labels.Table.{
  names, IsSymbols, names-set, get_elem?-set, Held, find_label-Held, find_again,
}

-- The end of a definition, in the table that the label was found in.
module _ (env : Env) (s : Symbols) (name : List ℕ) (s1 : Symbols) (i : ℕ) (l : Label)
    (held : Held env s name s1 i l) (created : Bool) (segment offset : ℕ) (s2 : Symbols)
    (d : Definition) (under : Underway env s1 l name segment offset (s2, d)) where
  abbrev last_label : Label
  unfolding sent
  last_label = (sent env s2 d (written env created d)).0

  abbrev last : Symbols
  unfolding recorded
  last = recorded env i created (s2, d)

  site : SameSite (written env created d) last_label
  unfolding last_label
  site = sent-SameSite env s2 d (written env created d)

  here : get_elem? s2.ldata i ≡ some l
  here = ap (λ x. get_elem? x i) under.ldata ∙ held.here

  same_names : names last.ldata ≡ names s1.ldata
  unfolding last recorded last_label
  same_names =
      names-set s2.ldata i l last_label here (site.label ∙ under.label) ∙ ap names under.ldata

  last-IsSymbols : IsSymbols last
  unfolding last recorded
  last-IsSymbols = record {
    hashed = subst (IsHashTable (crc64b crc64_init) same_key) (sym under.ltab) held.symbols.hashed;
    known = λ key.
        ap (λ t. get t key) under.ltab
        ∙ held.symbols.known key
        ∙ ap (position key) (sym same_names);
  }

  scope : full_name env last name ≡ full_name env s name
  unfolding last recorded
  scope = under.scope ∙ ap (λ p. if_local p) held.prevlabel
    where
      if_local : List ℕ → List ℕ
      if_local p = full_name env (record s { prevlabel = p }) name

  last_place : position (full_name env last name ++ (0 ∷ [])) (names last.ldata) ≡ some i
  last_place =
      ap (λ n. position (n ++ (0 ∷ [])) (names last.ldata)) scope
      ∙ ap (position (full_name env s name ++ (0 ∷ []))) same_names
      ∙ held.place

  last_here : get_elem? last.ldata i ≡ some last_label
  unfolding last recorded last_label
  last_here = get_elem?-set s2.ldata i l last_label here

  last_initialized : last.initialized ≡ s.initialized
  unfolding last recorded
  last_initialized = under.initialized ∙ held.initialized

  last_segment : last_label.segment ≡ segment
  last_segment = site.segment ∙ under.segment_

  last_offset : last_label.offset ≡ (if same_type last_label.type lbl_common then 0 else offset)
  last_offset =
      site.offset
      ∙ ap (λ b. if b then 0 else d.offset) (sym site.common)
      ∙ ap (λ o. if same_type last_label.type lbl_common then 0 else o) under.offset_

  refers :
      (x : Label)
      → x.defined ≡ env.pass_count + 1
      → referred env last i (some x) ≡ (
        put_label last i (record x { lastref = env.pass_count + 1 }),
        some (x.type, x.segment, x.offset),
      )
  refers x h =
      ap
        (λ b. if b then (last, none) else (
          put_label last i (record x { lastref = env.pass_count + 1 }),
          some (x.type, x.segment, x.offset),
        ))
        (defined h)
    where
      defined : x.defined ≡ env.pass_count + 1 → (x.defined == 0) ≡ false
      defined h = ground (arith, h)

  last_looked_up :
      s.initialized ≡ true
      → (s' : Symbols) × (lookup_label env last name
          ≡ some (
            s',
            some (
              last_label.type,
              segment,
              if same_type last_label.type lbl_common then 0 else offset,
            ),
          ))
  unfolding lookup_label
  last_looked_up h = (
    put_label last i (record last_label { lastref = env.pass_count + 1 }),
    ap (λ b. if b then looked_up env (find_label env last name false) else some (last, none))
          (last_initialized ∙ h)
        ∙ ap (looked_up env) (find_again env last name last-IsSymbols i last_place)
        ∙ ap (λ o. some (referred env last i o)) last_here
        ∙ ap some (refers last_label site.defined)
        ∙ ap (λ x. some (noted, some (last_label.type, x, last_label.offset))) last_segment
        ∙ ap (λ x. some (noted, some (last_label.type, segment, x))) last_offset,
  )
    where
      noted : Symbols
      noted = put_label last i (record last_label { lastref = env.pass_count + 1 })

define_step :
    (env : Env) (s : Symbols) (name : List ℕ) (s1 : Symbols) (i : ℕ) (l : Label) (created : Bool)
    (segment offset : ℕ) (normal : Bool)
    → find_label env s name true ≡ some (s1, some i, created)
    → get_elem? s1.ldata i ≡ some l
    → define_label env s name segment offset normal
      ≡ some (define_at env s1 i l created name segment offset normal)
unfolding define_label define_found
define_step env s name s1 i l created segment offset normal h e =
    ap (define_found env name segment offset normal) h ∙ rw (define_found, e) refl

-- Where the output format has no `herelabel`, a definition in a segment other than 0, in a well-formed
-- table that is initialized and in any pass, ends with a well-formed table. In it the name is looked up as that segment and
-- as the offset, or for a common variable the offset 0; also if the definition has changed the base of
-- local labels.
pub lookup_label-define_label :
    (env : Env) (s : Symbols) (name : List ℕ) (segment offset : ℕ) (normal : Bool)
    → IsSymbols s
    → s.initialized ≡ true
    → env.herelabel ≡ none
    → (segment == 0) ≡ false
    → (s' : Symbols) × (noted : Symbols) × (t : LabelType) × (define_label env s name segment offset
          normal
        ≡ some s')
      × IsSymbols s'
      × (lookup_label env s' name
          ≡ some (noted, some (t, segment, if same_type t lbl_common then 0 else offset)))
unfolding define_at
lookup_label-define_label env s name segment offset normal ok on h k =
    let (s1, i, l, created, step, held) = find_label-Held env s name ok in
    let r = based env name normal (located env (targeted s1 l segment offset)) in
    let under =
      based-Underway env s1 l name segment offset normal
        (located env (targeted s1 l segment offset))
        (located-Underway env s1 l name segment offset (targeted s1 l segment offset) h
          (targeted-Underway env s1 l name segment offset k)) in
    let (noted, found_) =
      last_looked_up env s name s1 i l held created segment offset r.0 r.1 under on in
    (
      last env s name s1 i l held created segment offset r.0 r.1 under,
      noted,
      (last_label env s name s1 i l held created segment offset r.0 r.1 under).type,
      define_step env s name s1 i l created segment offset normal step held.here,
      last-IsSymbols env s name s1 i l held created segment offset r.0 r.1 under,
      found_,
    )
