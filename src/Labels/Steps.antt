-- ===== src/Labels/Steps.antt =====
-- What the steps of a definition in asm/labels.c leave as it was.
use nasm.Prelude.{
  ℕ, ◌≡◌, refl, sym, ap, ◌∙◌, Bool, true, false, Bool-cases, List, ◌++◌, none, inl, inr, ◌==◌,
  arith, not, ◌&&◌, ◌||◌, if◌then◌else◌,
}
use mathlib.Core.Path.{subst}
use nasm.Labels.{
  lbl_global, lbl_backend, same_type, is_extern, Label, Symbols, Env, is_tasm_local, islocal,
  set_prevlabel, char_at, full_name,
}
use nasm.Labels.Declare.{mangle_label_name}
use nasm.Labels.Define.{Definition, targeted, handle_herelabel, located, based}
use nasm.Labels.Sites.{mangle_label_name-SameSite}

-- What a definition on its way has of the label and of the place that was asked for.
pub record Underway (env : Env) (s : Symbols) (l : Label) (name : List ℕ) (segment offset : ℕ)
    (r : Symbols × Definition) : Type 0 where
  pub ltab : r.0.ltab ≡ s.ltab
  pub ldata : r.0.ldata ≡ s.ldata
  pub initialized : r.0.initialized ≡ s.initialized
  pub scope : full_name env r.0 name ≡ full_name env s name
  pub label : r.1.label.label ≡ l.label
  pub segment_ : r.1.segment ≡ segment
  pub offset_ : r.1.offset ≡ offset

-- A definition proper.
pub targeted-Underway :
    (env : Env) (s : Symbols) (l : Label) (name : List ℕ) (segment offset : ℕ)
    → (segment == 0) ≡ false
    → Underway env s l name segment offset (targeted s l segment offset)
targeted-Underway env s l name segment offset h = elim (Bool-cases (is_extern l.type)) [
  | inl e ↦ subst (Underway env s l name segment offset) (sym (made_global e)) record {
    ltab = refl;
    ldata = refl;
    initialized = refl;
    scope = refl;
    label = refl;
    segment_ = refl;
    offset_ = refl;
  }
  | inr e ↦ subst (Underway env s l name segment offset) (sym (as_asked e)) record {
    ltab = refl;
    ldata = refl;
    initialized = refl;
    scope = refl;
    label = refl;
    segment_ = refl;
    offset_ = refl;
  }
]
  where
    made_global :
        is_extern l.type ≡ true
        → targeted s l segment offset ≡ (
          s,
          record {
            label = record l { type = lbl_global };
            segment = segment;
            offset = offset;
            lastdef = 0;
          },
        )
    made_global e = rw (h, e) refl

    as_asked :
        is_extern l.type ≡ false
        → targeted s l segment offset
          ≡ (s, record { label = l; segment = segment; offset = offset; lastdef = l.defined })
    as_asked e = rw (h, e) refl

-- Where the output format has no `herelabel`.
pub located-Underway :
    (env : Env) (s : Symbols) (l : Label) (name : List ℕ) (segment offset : ℕ)
    (r : Symbols × Definition)
    → env.herelabel ≡ none
    → Underway env s l name segment offset r
    → Underway env s l name segment offset (located env r)
unfolding located handle_herelabel
located-Underway env s l name segment offset (s', d) h u =
    both (not (d.lastdef == 0) || same_type d.label.type lbl_backend)
  where
    here :
        handle_herelabel env s' (record d { label = mangle_label_name s'.mangling d.label })
        ≡ (s', record d { label = mangle_label_name s'.mangling d.label })
    here = rw (handle_herelabel, h) refl

    named :
        Underway env s l name segment offset
          (s', record d { label = mangle_label_name s'.mangling d.label })
    named = record {
      ltab = u.ltab;
      ldata = u.ldata;
      initialized = u.initialized;
      scope = u.scope;
      label = (mangle_label_name-SameSite s'.mangling d.label).label ∙ u.label;
      segment_ = u.segment_;
      offset_ = u.offset_;
    }

    both :
        (b : Bool)
        → Underway env s l name segment offset (
            if b
            then handle_herelabel env s'
                (record d { label = mangle_label_name s'.mangling d.label })
            else (s', d))
    both true = subst (Underway env s l name segment offset) (sym here) named
    both false = u

-- A label that becomes the base of local labels is not local.
not_both : (tasm dot two : Bool) → (not tasm && not dot) ≡ true → (tasm || (dot && not two)) ≡ false
not_both tasm dot two h = ground arith

pub based-Underway :
    (env : Env) (s : Symbols) (l : Label) (name : List ℕ) (segment offset : ℕ) (normal : Bool)
    (r : Symbols × Definition)
    → Underway env s l name segment offset r
    → Underway env s l name segment offset (based env name normal r)
based-Underway env s l name segment offset normal (s', d) u =
    elim (Bool-cases (set_prevlabel env name && normal)) [
      | inl e ↦ record {
        ltab = ap (λ x. x.ltab) (taken e) ∙ u.ltab;
        ldata = ap (λ x. x.ldata) (taken e) ∙ u.ldata;
        initialized = ap (λ x. x.initialized) (taken e) ∙ u.initialized;
        scope =
            ap (λ x. full_name env x name) (taken e)
            ∙ whole (record s' { prevlabel = d.label.label }) (nonlocal e)
            ∙ sym (whole s' (nonlocal e))
            ∙ u.scope;
        label = u.label;
        segment_ = u.segment_;
        offset_ = u.offset_;
      }
      | inr e ↦ record {
        ltab = ap (λ x. x.ltab) (kept e) ∙ u.ltab;
        ldata = ap (λ x. x.ldata) (kept e) ∙ u.ldata;
        initialized = ap (λ x. x.initialized) (kept e) ∙ u.initialized;
        scope = ap (λ x. full_name env x name) (kept e) ∙ u.scope;
        label = u.label;
        segment_ = u.segment_;
        offset_ = u.offset_;
      }
    ]
  where
    taken :
        (set_prevlabel env name && normal) ≡ true
        → (if set_prevlabel env name && normal then record s' { prevlabel = d.label.label } else s')
          ≡ record s' { prevlabel = d.label.label }
    taken e = rw (e) refl

    kept :
        (set_prevlabel env name && normal) ≡ false
        → (if set_prevlabel env name && normal then record s' { prevlabel = d.label.label } else s')
          ≡ s'
    kept e = rw (e) refl

    first : (a b : Bool) → (a && b) ≡ true → a ≡ true
    first a b h = ground arith

    nonlocal : (set_prevlabel env name && normal) ≡ true → islocal env name ≡ false
    nonlocal e =
        not_both (is_tasm_local env name) (char_at name 0 == 0x2e) (char_at name 1 == 0x2e)
          (first (set_prevlabel env name) normal e)

    whole : (x : Symbols) → islocal env name ≡ false → full_name env x name ≡ name
    whole x h = ap (λ b. if b then x.prevlabel ++ name else name) h
