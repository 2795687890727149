-- ===== src/Labels/Define.antt =====
-- asm/labels.c: definitions of labels.
use nasm.Prelude.{
  ℕ, ◌+◌, ◌%◌, ◌^◌, Bool, true, false, not, ◌&&◌, ◌||◌, List, [], ◌∷◌, ◌++◌, Option, none, some,
  get_elem?, ltb, ◌==◌, if◌then◌else◌,
}
use nasm.Word.{add64}
use nasm.Expr.{no_seg}
use nasm.Location.{switch_segment}
use nasm.Labels.{
  LabelType, lbl_local, lbl_global, lbl_extern, lbl_required, lbl_common, lbl_special, lbl_backend,
  same_type, is_extern, pass_number, pass_stab, pass_final, Label, Message,
  inconsistently_redefined, redefined, changed_offset, changed_undead, Symdef, symdef,
  debug_deflabel, Symbols, Env, ismagic, set_prevlabel, find_label, put_label,
}
use nasm.Labels.Declare.{mangle_label_name, declare_label}

-- A definition on its way: the label, and where it is to be. `lastdef` is the pass that defined it
-- last, or 0.
pub record Definition : Type 0 where
  pub label : Label
  pub segment : ℕ
  pub offset : ℕ
  pub lastdef : ℕ

-- A segment of 0 stands for one of its own; a real definition makes an external label global.
abbrev pub targeted : Symbols → Label → ℕ → ℕ → Symbols × Definition
targeted s l segment offset =
    if segment == 0
    then (if l.segment == 0
        then (
          record s { next_seg = (s.next_seg + 2) % 2 ^ 32 },
          record { label = l; segment = s.next_seg; offset = offset; lastdef = l.defined },
        )
        else (s, record { label = l; segment = l.segment; offset = offset; lastdef = l.defined }))
    else if is_extern l.type
    then (
      s,
      record {
        label = record l { type = lbl_global };
        segment = segment;
        offset = offset;
        lastdef = 0;
      },
    )
    else (s, record { label = l; segment = segment; offset = offset; lastdef = l.defined })

-- The output format has put the label into another segment.
abbrev pub moved : Symbols → Definition → ℕ → Bool → Symbols × Definition
unfolding switch_segment
moved s d newseg copyoffset =
    let a = switch_segment s.assembly newseg in
    if copyoffset
    then (
      record s { assembly = record a { location = record a.location { offset = d.offset } } },
      record d { segment = newseg },
    )
    else (record s { assembly = a }, record d { segment = newseg; offset = a.location.offset })

abbrev pub placed_by : Symbols → Definition → ℕ × ℕ × Bool → Symbols × Definition
unfolding moved
placed_by s d (newseg, subsection, copyoffset) =
    let d' = record d { label = record d.label { subsection = subsection } } in
    if newseg == d.segment then (s, d') else moved s d' newseg copyoffset

unfoldable pub handle_herelabel : Env → Symbols → Definition → Symbols × Definition
unfolding placed_by
handle_herelabel env s d = elim env.herelabel [
  | none ↦ (s, d)
  | some herelabel ↦
      if s.assembly.location.segment == no_seg
      then (s, d)
      else if d.segment == s.assembly.location.segment && d.offset == s.assembly.location.offset
      then placed_by s d (herelabel d.label.mangled d.label.type d.segment d.label.subsection)
      else (s, d)
]

unfoldable pub located : Env → Symbols × Definition → Symbols × Definition
unfolding handle_herelabel
located env (s, d) =
    if not (d.lastdef == 0) || same_type d.label.type lbl_backend
    then handle_herelabel env s (record d { label = mangle_label_name s.mangling d.label })
    else (s, d)

-- The type of a magic label, the base of local labels, and the size of a common variable.
abbrev pub magic_type : List ℕ → LabelType → LabelType
magic_type name type = if ismagic name && same_type type lbl_local then lbl_special else type

abbrev pub based : Env → List ℕ → Bool → Symbols × Definition → Symbols × Definition
based env name normal (s, d) = (
  (if set_prevlabel env name && normal then record s { prevlabel = d.label.label } else s),
  record d { label = record d.label { type = magic_type name d.label.type } },
)

abbrev pub new_size : Definition → ℕ
new_size d = if same_type d.label.type lbl_common then d.offset else 0

abbrev pub new_offset : Definition → ℕ
new_offset d = if same_type d.label.type lbl_common then 0 else d.offset

abbrev pub is_large_change : Bool → Definition → Bool
is_large_change created d =
    created
    || d.lastdef == 0
    || (not (d.label.segment == d.segment) || not (d.label.size == new_size d))

abbrev pub is_change : Bool → Definition → Bool
is_change created d = is_large_change created d || not (d.label.offset == new_offset d)

-- The label has been defined in this pass.
abbrev pub redefinition : Bool → Definition → List Message
redefinition created d =
    if is_change created d
    then inconsistently_redefined d.label.label d.label.def_at ∷ []
    else redefined d.label.label d.label.def_at ∷ []

abbrev pub late_change : Env → Bool → Definition → List Message
late_change env created d =
    if is_change created d && (pass_final env.pass_type && not (same_type d.label.type lbl_special))
    then (if is_large_change created d
        then changed_undead d.label.label created ∷ []
        else changed_offset d.label.label d.label.offset (new_offset d) ∷ [])
    else []

abbrev pub change_messages : Env → Bool → Definition → List Message
change_messages env created d =
    if d.lastdef == env.pass_count + 1 then redefinition created d else late_change env created d

abbrev pub written : Env → Bool → Definition → Label
written env created d = record d.label {
  segment = d.segment;
  offset = new_offset d;
  size = new_size d;
  defined = env.pass_count + 1;
  def_at =
      if is_change created d || not (d.lastdef == env.pass_count + 1)
      then env.source
      else d.label.def_at;
}

-- The kind and the offset that the output format is told.
abbrev pub backend_values : Label → ℕ × ℕ
backend_values l =
    if same_type l.type lbl_global || same_type l.type lbl_required
    then (1, l.offset)
    else if same_type l.type lbl_common
    then (2, l.size)
    else (0, l.offset)

abbrev pub told : Symbols → Label → Label × List Symdef
told s l =
    let l' = mangle_label_name s.mangling l in
    let (kind, offset) = backend_values l' in
    (
      l',
      symdef l'.mangled l'.segment offset kind l'.special
          ∷ (if same_type l.type lbl_special || same_type l.type lbl_backend
              then []
              else debug_deflabel l'.mangled l'.segment l'.offset kind l'.special ∷ []),
    )

abbrev pub special_fixup : Label → List Symdef
special_fixup l =
    if same_type l.type lbl_global || (same_type l.type lbl_required || same_type l.type lbl_common)
    then elim l.special [ none ↦ [] | some text ↦ symdef l.mangled 0 0 3 (some text) ∷ [] ]
    else []

unfoldable pub out_symdef : Env → Symbols → Label → Label × List Symdef
out_symdef env s l =
    if pass_final env.pass_type
    then (l, special_fixup l)
    else if not (pass_number env.pass_type == pass_number pass_stab)
        && not (same_type l.type lbl_backend)
    then (l, [])
    else if same_type l.type lbl_extern
    then (if ltb l.lastref env.pass_count
        then (l, [])
        else told s (record l { type = lbl_required }))
    else told s l

unfoldable pub sent : Env → Symbols → Definition → Label → Label × List Symdef
unfolding out_symdef
sent env s d l = if d.lastdef == env.pass_count + 1 then (l, []) else out_symdef env s l

-- The last part of a definition: the counter of changes, the messages, and the label.
unfoldable pub recorded : Env → ℕ → Bool → Symbols × Definition → Symbols
unfolding sent
recorded env i created (s, d) =
    let (l, out) = sent env s d (written env created d) in
    put_label
      (record s {
        global_offset_changed =
            add64 s.global_offset_changed (if is_change created d then 1 else 0);
        messages = s.messages ++ change_messages env created d;
        symdefs = s.symdefs ++ out;
      })
      i l

unfoldable pub define_at : Env → Symbols → ℕ → Label → Bool → List ℕ → ℕ → ℕ → Bool → Symbols
unfolding recorded located
define_at env s i l created name segment offset normal =
    recorded env i created (based env name normal (located env (targeted s l segment offset)))

unfoldable pub define_found :
    Env → List ℕ → ℕ → ℕ → Bool → Option (Symbols × Option ℕ × Bool) → Option Symbols
unfolding define_at
define_found env name segment offset normal none = none
define_found env name segment offset normal (some (s, none, created)) = none
define_found env name segment offset normal (some (s, some i, created)) =
    elim (get_elem? s.ldata i) [
      | none ↦ none
      | some l ↦ some (define_at env s i l created name segment offset normal)
    ]

unfoldable pub define_label : Env → Symbols → List ℕ → ℕ → ℕ → Bool → Option Symbols
unfolding define_found find_label
define_label env s label segment offset normal =
    define_found env label segment offset normal (find_label env s label true)

abbrev pub define_if : Env → List ℕ → ℕ → ℕ → Option (Symbols × Bool) → Option Symbols
unfolding define_label
define_if env label segment offset none = none
define_if env label segment offset (some (s, false)) = some s
define_if env label segment offset (some (s, true)) = define_label env s label segment offset false

unfoldable pub backend_label : Env → Symbols → List ℕ → ℕ → ℕ → Option Symbols
unfolding define_if declare_label
backend_label env s label segment offset =
    define_if env label segment offset (declare_label env s label lbl_backend none)
