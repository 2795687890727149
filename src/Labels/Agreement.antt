-- ===== src/Labels/Agreement.antt =====
-- Declarations of asm/labels.c that concern one label.
use nasm.Prelude.{
  ℕ, ◌≡◌, refl, ap, ◌∙◌, Bool, true, false, List, Option, none, some, Option-cases, inl, inr, ◌==◌,
  arith, not, ◌&&◌, if◌then◌else◌,
}
use nasm.Labels.{
  LabelType, lbl_local, lbl_global, lbl_extern, lbl_required, lbl_common, same_type, is_extern,
  pass_stable, Label, Env,
}
use nasm.Labels.Declare.{
  specialised, with_message, promoted, without_empty, declare_as, declare_label_lptr,
}

-- The declarations of symbols that files share.
pub data Linkage : Type 0 where
  by_extern : Linkage
  by_required : Linkage
  by_global : Linkage
  by_common : Linkage

abbrev pub linkage : Linkage → LabelType
linkage by_extern = lbl_extern
linkage by_required = lbl_required
linkage by_global = lbl_global
linkage by_common = lbl_common

-- The stronger of two declarations, and whether they can both stand.
abbrev pub stronger : Linkage → Linkage → Linkage
stronger by_extern t = t
stronger by_required by_extern = by_required
stronger by_required t = t
stronger by_global t = by_global
stronger by_common t = by_common

abbrev pub agree : Linkage → Linkage → Bool
agree by_global by_common = false
agree by_common by_global = false
agree s t = true

-- The label and its type after a declaration.
abbrev pub label_after : Env → Label → Linkage → Option (List ℕ) → Label
unfolding declare_label_lptr
label_after env l t special = (declare_label_lptr env l (linkage t) special).0

abbrev pub type_after_both :
    Env → Label → Linkage → Option (List ℕ) → Linkage → Option (List ℕ) → LabelType
unfolding label_after
type_after_both env l s a t b = (label_after env (label_after env l s a) t b).type

specialised-type :
    (env : Env) (l : Label) (text : Option (List ℕ))
    → (with_message (specialised env l text)).0.type ≡ l.type
specialised-type env l none = refl
specialised-type env l (some text) = elim (Option-cases l.special) [
  | inl e ↦ rw (e) refl
  | inr (old, e) ↦ rw (e) refl
]

-- The type by the type so far.
as-type :
    (env : Env) (l : Label) (s t : Linkage) (text : Option (List ℕ))
    → (declare_as env l (linkage s) (linkage t) text).0.type ≡ linkage (stronger s t)
unfolding declare_as
as-type env l by_extern by_extern text = specialised-type env (record l { type = lbl_extern }) text
as-type env l by_extern by_required text =
    specialised-type env (record l { type = lbl_required }) text
as-type env l by_extern by_global text = refl
as-type env l by_extern by_common text = refl
as-type env l by_required by_extern text = refl
as-type env l by_required by_required text =
    specialised-type env (record l { type = lbl_required }) text
as-type env l by_required by_global text = refl
as-type env l by_required by_common text = refl
as-type env l by_global by_extern text = refl
as-type env l by_global by_required text = refl
as-type env l by_global by_global text = specialised-type env (record l { type = lbl_global }) text
as-type env l by_global by_common text = refl
as-type env l by_common by_extern text = refl
as-type env l by_common by_required text = refl
as-type env l by_common by_global text = refl
as-type env l by_common by_common text = specialised-type env (record l { type = lbl_common }) text

-- A shared label keeps its type before a declaration, in every pass.
promoted-shared :
    (env : Env) (l : Label) (s t : Linkage)
    → l.type ≡ linkage s
    → promoted env l (linkage t) ≡ linkage s
promoted-shared env l s t e = both (not (pass_stable env.pass_type)) ∙ e
  where
    other : (s : Linkage) → same_type (linkage s) lbl_local ≡ false
    other by_extern = refl
    other by_required = refl
    other by_global = refl
    other by_common = refl

    neither : (b c : Bool) (x y : LabelType) → c ≡ false → (if b && c then x else y) ≡ y
    neither true c x y h = ap (λ c. if c then x else y) h
    neither false c x y h = refl

    both :
        (b : Bool)
        → (if b && same_type l.type lbl_local
            then (if is_extern (linkage t) && not (l.defined == 0) then lbl_global else linkage t)
            else l.type)
          ≡ l.type
    both b =
        neither b (same_type l.type lbl_local)
          (if is_extern (linkage t) && not (l.defined == 0) then lbl_global else linkage t) l.type
          (ap (λ x. same_type x lbl_local) e ∙ other s)

promoted-local :
    (env : Env) (l : Label) (t : Linkage)
    → pass_stable env.pass_type ≡ false
    → l.type ≡ lbl_local
    → l.defined ≡ 0
    → promoted env l (linkage t) ≡ linkage t
promoted-local env l by_extern h e d = rw (h, e, d) refl
promoted-local env l by_required h e d = rw (h, e, d) refl
promoted-local env l by_global h e d = rw (h, e) refl
promoted-local env l by_common h e d = rw (h, e) refl

after-shared :
    (env : Env) (l : Label) (s t : Linkage) (special : Option (List ℕ))
    → l.type ≡ linkage s
    → (label_after env l t special).type ≡ linkage (stronger s t)
unfolding declare_label_lptr label_after
after-shared env l s t special e =
    ap (λ o. (declare_as env l o (linkage t) (without_empty special)).0.type)
      (promoted-shared env l s t e)
    ∙ as-type env l s t (without_empty special)

stronger_self : (s : Linkage) → stronger s s ≡ s
stronger_self by_extern = refl
stronger_self by_required = refl
stronger_self by_global = refl
stronger_self by_common = refl

stronger_comm : (s t : Linkage) → agree s t ≡ true → stronger t s ≡ stronger s t
stronger_comm by_extern by_extern h = refl
stronger_comm by_extern by_required h = refl
stronger_comm by_extern by_global h = refl
stronger_comm by_extern by_common h = refl
stronger_comm by_required by_extern h = refl
stronger_comm by_required by_required h = refl
stronger_comm by_required by_global h = refl
stronger_comm by_required by_common h = refl
stronger_comm by_global by_extern h = refl
stronger_comm by_global by_required h = refl
stronger_comm by_global by_global h = refl
stronger_comm by_global by_common h = absurd (ground (arith, h))
stronger_comm by_common by_extern h = refl
stronger_comm by_common by_required h = refl
stronger_comm by_common by_global h = absurd (ground (arith, h))
stronger_comm by_common by_common h = refl

after-local :
    (env : Env) (l : Label) (t : Linkage) (special : Option (List ℕ))
    → pass_stable env.pass_type ≡ false
    → l.type ≡ lbl_local
    → l.defined ≡ 0
    → (label_after env l t special).type ≡ linkage t
unfolding declare_label_lptr label_after
after-local env l t special h e d =
    ap (λ o. (declare_as env l o (linkage t) (without_empty special)).0.type)
      (promoted-local env l t h e d)
    ∙ as-type env l t t (without_empty special)
    ∙ ap linkage (stronger_self t)

-- In a pass before the stable ones, two declarations that agree give a label that is local and has not
-- been defined the stronger of the two types in either order, whatever special text they have.
pub declare_label_lptr_comm :
    (env : Env) (l : Label) (s t : Linkage) (a b : Option (List ℕ))
    → pass_stable env.pass_type ≡ false
    → l.type ≡ lbl_local
    → l.defined ≡ 0
    → agree s t ≡ true
    → (type_after_both env l s a t b ≡ linkage (stronger s t))
      × (type_after_both env l t b s a ≡ linkage (stronger s t))
unfolding label_after type_after_both
declare_label_lptr_comm env l s t a b h e d k = (
  after-shared env (label_after env l s a) s t b (after-local env l s a h e d),
  after-shared env (label_after env l t b) t s a (after-local env l t b h e d)
      ∙ ap linkage (stronger_comm s t k),
)
