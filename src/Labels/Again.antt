-- ===== src/Labels/Again.antt =====
-- A second definition of a label in one pass, in asm/labels.c.
use nasm.Prelude.{
  ℕ, ◌+◌, ◌≡◌, refl, sym, ap, ◌∙◌, Bool, true, false, Bool-cases, inl, inr, List, [], ◌∷◌, ◌++◌,
  none, ◌==◌, arith, if◌then◌else◌, not, ◌&&◌, ◌||◌, append-nil,
}
use mathlib.Core.Path.{subst}
use nasm.Word.{add64}
use nasm.Labels.{
  LabelType, lbl_local, lbl_common, lbl_special, lbl_backend, same_type, is_extern, ismagic, Label,
  Message, inconsistently_redefined, redefined, Symbols, Env, set_prevlabel,
}
use nasm.Labels.Declare.{mangle_label_name}
use nasm.Labels.Define.{
  Definition, targeted, handle_herelabel, located, based, magic_type, is_change, redefinition,
  late_change, change_messages, written, sent, recorded, define_at,
}
use nasm.Labels.Sites.{SameSite, mangle_label_name-SameSite}

magic_common :
    (name : List ℕ) (t : LabelType)
    → same_type t lbl_common ≡ false
    → same_type (magic_type name t) lbl_common ≡ false
magic_common name t h = elim (Bool-cases (ismagic name && same_type t lbl_local)) [
  | inl e ↦ ap (λ b. same_type (if b then lbl_special else t) lbl_common) e
  | inr e ↦ ap (λ b. same_type (if b then lbl_special else t) lbl_common) e ∙ h
]

-- Whether the label has the values already.
abbrev pub same_place : Label → ℕ → ℕ → Bool
same_place l segment offset = l.segment == segment && l.offset == offset

module _ (env : Env) (s : Symbols) (i : ℕ) (l : Label) (name : List ℕ) (segment offset : ℕ)
    (normal : Bool) (now : l.defined ≡ env.pass_count + 1) (own : is_extern l.type ≡ false)
    (plain : same_type l.type lbl_common ≡ false) (sizeless : l.size ≡ 0)
    (no_herelabel : env.herelabel ≡ none) (proper : (segment == 0) ≡ false) where
  abbrev mangled : Label
  mangled = mangle_label_name s.mangling l

  abbrev definition : Definition
  definition = record {
    label = record mangled { type = magic_type name mangled.type };
    segment = segment;
    offset = offset;
    lastdef = l.defined;
  }

  aimed :
      targeted s l segment offset
      ≡ (s, record { label = l; segment = segment; offset = offset; lastdef = l.defined })
  aimed = rw (proper, own) refl

  stays :
      handle_herelabel env s
        record { label = mangled; segment = segment; offset = offset; lastdef = l.defined }
      ≡ (s, record { label = mangled; segment = segment; offset = offset; lastdef = l.defined })
  unfolding handle_herelabel
  stays = rw (handle_herelabel, no_herelabel) refl

  here :
      located env (s, record { label = l; segment = segment; offset = offset; lastdef = l.defined })
      ≡ (s, record { label = mangled; segment = segment; offset = offset; lastdef = l.defined })
  unfolding located
  here =
      ap
        (λ b.
          if b
          then handle_herelabel env s
              record { label = mangled; segment = segment; offset = offset; lastdef = l.defined }
          else (s, record { label = l; segment = segment; offset = offset; lastdef = l.defined }))
        before
      ∙ stays
    where
      before : (not (l.defined == 0) || same_type l.type lbl_backend) ≡ true
      before = ground (arith, now)

  abbrev base : Symbols
  base = if set_prevlabel env name && normal then record s { prevlabel = mangled.label } else s

  steps : based env name normal (located env (targeted s l segment offset)) ≡ (base, definition)
  steps = ap (λ r. based env name normal (located env r)) aimed ∙ ap (based env name normal) here

  site : SameSite l mangled
  site = mangle_label_name-SameSite s.mangling l

  common : same_type (magic_type name mangled.type) lbl_common ≡ false
  common = magic_common name mangled.type (site.common ∙ plain)

  change : is_change false definition ≡ not (same_place l segment offset)
  change =
      compare_all l.defined mangled.segment mangled.size mangled.offset l.segment l.offset
        (same_type (magic_type name mangled.type) lbl_common) common site.segment
        (site.size ∙ sizeless) site.offset
    where
      compare_all :
          (defined segment' size' offset' lsegment loffset : ℕ) (c : Bool)
          → c ≡ false
          → segment' ≡ lsegment
          → size' ≡ 0
          → offset' ≡ loffset
          → ((l.defined == 0
                || (not (segment' == segment) || not (size' == (if c then offset else 0))))
              || not (offset' == (if c then 0 else offset)))
            ≡ not (lsegment == segment && loffset == offset)
      compare_all defined segment' size' offset' lsegment loffset c e e1 e2 e3 = ground (arith, now)

  again : (l.defined == env.pass_count + 1) ≡ true
  again = ground (arith, now)

  -- What is reported.
  abbrev report : Message
  report =
      if same_place l segment offset
      then redefined l.label l.def_at
      else inconsistently_redefined l.label l.def_at

  reported : change_messages env false definition ≡ report ∷ []
  reported =
      ap (λ b. if b then redefinition false definition else late_change env false definition) again
      ∙ ap
          (λ b.
            if b
            then inconsistently_redefined mangled.label mangled.def_at ∷ []
            else redefined mangled.label mangled.def_at ∷ [])
          change
      ∙ choice (same_place l segment offset)
    where
      choice :
          (b : Bool)
          → (if not b
              then inconsistently_redefined mangled.label mangled.def_at ∷ []
              else redefined mangled.label mangled.def_at ∷ [])
            ≡ (if b then redefined l.label l.def_at else inconsistently_redefined l.label l.def_at)
              ∷ []
      choice true =
          ap (λ x. redefined x mangled.def_at ∷ []) site.label
          ∙ ap (λ x. redefined l.label x ∷ []) site.def_at
      choice false =
          ap (λ x. inconsistently_redefined x mangled.def_at ∷ []) site.label
          ∙ ap (λ x. inconsistently_redefined l.label x ∷ []) site.def_at

  base_same :
      (base.messages ≡ s.messages)
      × (base.symdefs ≡ s.symdefs)
      × (base.global_offset_changed ≡ s.global_offset_changed)
  base_same = choice (set_prevlabel env name && normal)
    where
      choice :
          (b : Bool)
          → ((if b then record s { prevlabel = mangled.label } else s).messages ≡ s.messages)
            × ((if b then record s { prevlabel = mangled.label } else s).symdefs ≡ s.symdefs)
            × ((if b then record s { prevlabel = mangled.label } else s).global_offset_changed
                ≡ s.global_offset_changed)
      choice true = (refl, refl, refl)
      choice false = (refl, refl, refl)

  told_nothing : (sent env base definition (written env false definition)).1 ≡ []
  unfolding sent
  told_nothing = rw (sent, again) refl

  abbrev after : Symbols
  unfolding recorded
  after = recorded env i false (base, definition)

  counted : (b : Bool) → ◌≡◌ {A = ℕ} (if not b then 1 else 0) (if b then 0 else 1)
  counted true = refl
  counted false = refl

  after_all :
      (after.messages ≡ s.messages ++ (report ∷ []))
      × (after.symdefs ≡ s.symdefs)
      × (after.global_offset_changed
          ≡ add64 s.global_offset_changed (if same_place l segment offset then 0 else 1))
  unfolding after recorded
  after_all = (
    ap (λ m. m ++ change_messages env false definition) base_same.0
        ∙ ap (λ m. s.messages ++ m) reported,
    ap (λ m. m ++ (sent env base definition (written env false definition)).1) base_same.1
        ∙ ap (λ m. s.symdefs ++ m) told_nothing
        ∙ append-nil s.symdefs,
    ap (λ n. add64 n (if is_change false definition then 1 else 0)) base_same.2
        ∙ ap (λ b. add64 s.global_offset_changed (if b then 1 else 0)) change
        ∙ ap (add64 s.global_offset_changed) (counted (same_place l segment offset)),
  )

-- Where the output format has no `herelabel`: once `define_label` has found a label that has been
-- defined in this pass already, is not external and no common variable, and has size 0, a definition of
-- it in a segment other than 0 gives one message, an error where
-- the segment or the offset is another one and otherwise a warning; it counts as a change just in the
-- first case, and nothing is passed to the output.
pub define_at_again :
    (env : Env) (s : Symbols) (i : ℕ) (l : Label) (name : List ℕ) (segment offset : ℕ)
    (normal : Bool)
    → l.defined ≡ env.pass_count + 1
    → is_extern l.type ≡ false
    → same_type l.type lbl_common ≡ false
    → l.size ≡ 0
    → env.herelabel ≡ none
    → (segment == 0) ≡ false
    → ((define_at env s i l false name segment offset normal).messages
        ≡ s.messages
          ++ ((if same_place l segment offset
                then redefined l.label l.def_at
                else inconsistently_redefined l.label l.def_at)
              ∷ []))
      × ((define_at env s i l false name segment offset normal).symdefs ≡ s.symdefs)
      × ((define_at env s i l false name segment offset normal).global_offset_changed
          ≡ add64 s.global_offset_changed (if same_place l segment offset then 0 else 1))
unfolding define_at
define_at_again env s i l name segment offset normal now own plain sizeless h proper =
    subst
      (λ x.
        (x.messages
          ≡ s.messages
            ++ ((if same_place l segment offset
                  then redefined l.label l.def_at
                  else inconsistently_redefined l.label l.def_at)
                ∷ []))
        × (x.symdefs ≡ s.symdefs)
        × (x.global_offset_changed
            ≡ add64 s.global_offset_changed (if same_place l segment offset then 0 else 1)))
      (sym (
        ap (recorded env i false)
          (steps env s i l name segment offset normal now own plain sizeless h proper)))
      (after_all env s i l name segment offset normal now own plain sizeless h proper)
