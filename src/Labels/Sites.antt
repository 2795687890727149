-- ===== src/Labels/Sites.antt =====
-- The labels of asm/labels.c, which keep their places as their names are formed and passed on.
use nasm.Prelude.{
  ℕ, ◌+◌, ◌≡◌, refl, sym, ◌∙◌, Bool, true, false, Bool-cases, List, [], none, some, Option-cases,
  inl, inr, ◌==◌, arith, not, ◌&&◌, if◌then◌else◌, ltb,
}
use mathlib.Core.Path.{subst}
use nasm.Labels.{
  LabelType, lbl_extern, lbl_required, lbl_common, lbl_backend, same_type, Label, Mangling, Symbols,
  Env, pass_final, pass_number, pass_stab,
}
use nasm.Labels.Declare.{mangled_now, mangle_label_name}
use nasm.Labels.Define.{Definition, told, special_fixup, out_symdef, sent}

-- A label keeps its name and its place, and whether it is a common variable.
pub record SameSite (l l' : Label) : Type 0 where
  pub label : l'.label ≡ l.label
  pub segment : l'.segment ≡ l.segment
  pub offset : l'.offset ≡ l.offset
  pub size : l'.size ≡ l.size
  pub defined : l'.defined ≡ l.defined
  pub def_at : l'.def_at ≡ l.def_at
  pub common : same_type l'.type lbl_common ≡ same_type l.type lbl_common

pub unchanged : (l : Label) → SameSite l l
unchanged l = record {
  label = refl;
  segment = refl;
  offset = refl;
  size = refl;
  defined = refl;
  def_at = refl;
  common = refl;
}

pub mangle_label_name-SameSite : (m : Mangling) (l : Label) → SameSite l (mangle_label_name m l)
mangle_label_name-SameSite m l = elim (Option-cases l.mangled) [
  | inl e ↦ subst (SameSite l) (sym (now_without e)) record {
    label = refl;
    segment = refl;
    offset = refl;
    size = refl;
    defined = refl;
    def_at = refl;
    common = refl;
  }
  | inr (text, e) ↦ elim (Bool-cases (same_type l.mangled_type l.type)) [
    | inl same ↦ subst (SameSite l) (sym (as_is text e same)) (unchanged l)
    | inr other ↦ subst (SameSite l) (sym (now_again text e other)) record {
      label = refl;
      segment = refl;
      offset = refl;
      size = refl;
      defined = refl;
      def_at = refl;
      common = refl;
    }
  ]
]
  where
    now_without : l.mangled ≡ none → mangle_label_name m l ≡ mangled_now m l
    now_without e = rw (e) refl

    as_is :
        (text : List ℕ)
        → l.mangled ≡ some text
        → same_type l.mangled_type l.type ≡ true
        → mangle_label_name m l ≡ l
    as_is text e same = rw (e, same) refl

    now_again :
        (text : List ℕ)
        → l.mangled ≡ some text
        → same_type l.mangled_type l.type ≡ false
        → mangle_label_name m l ≡ mangled_now m l
    now_again text e other = rw (e, other) refl

-- An external label is no common variable.
extern_common : (t : LabelType) → same_type t lbl_extern ≡ true → same_type t lbl_common ≡ false
extern_common t h = ground (arith, h)

choose :
    (l : Label) {A : Type 0} (b : Bool) (x y : Label × A)
    → (b ≡ true → SameSite l x.0)
    → SameSite l y.0
    → SameSite l (if b then x else y).0
choose l true x y p q = p refl
choose l false x y p q = q

-- An external label that is required from now on.
told_required :
    (s : Symbols) (l : Label)
    → same_type l.type lbl_extern ≡ true
    → SameSite l (told s (record l { type = lbl_required })).0
told_required s l e =
    let m = mangle_label_name-SameSite s.mangling (record l { type = lbl_required }) in
    record {
      label = m.label;
      segment = m.segment;
      offset = m.offset;
      size = m.size;
      defined = m.defined;
      def_at = m.def_at;
      common = m.common ∙ sym (extern_common l.type e);
    }

out_symdef-SameSite : (env : Env) (s : Symbols) (l : Label) → SameSite l (out_symdef env s l).0
unfolding out_symdef
out_symdef-SameSite env s l =
    let early = ltb l.lastref env.pass_count in
    let required = told s (record l { type = lbl_required }) in
    let as_extern = if early then (l, []) else required in
    let by_type = if same_type l.type lbl_extern then as_extern else told s l in
    let not_yet =
      not (pass_number env.pass_type == pass_number pass_stab)
      && not (same_type l.type lbl_backend) in
    choose l (pass_final env.pass_type) (l, special_fixup l) (if not_yet then (l, []) else by_type)
      (λ e. unchanged l)
      (choose l not_yet (l, []) by_type (λ e. unchanged l)
        (choose l (same_type l.type lbl_extern) as_extern (told s l)
          (λ e. choose l early (l, []) required (λ e'. unchanged l) (told_required s l e))
          (mangle_label_name-SameSite s.mangling l)))

pub sent-SameSite :
    (env : Env) (s : Symbols) (d : Definition) (l : Label) → SameSite l (sent env s d l).0
unfolding sent
sent-SameSite env s d l =
    choose l (d.lastdef == env.pass_count + 1) (l, []) (out_symdef env s l) (λ e. unchanged l)
      (out_symdef-SameSite env s l)
