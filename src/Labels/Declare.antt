-- ===== src/Labels/Declare.antt =====
-- asm/labels.c: names with prefixes and suffixes, and declarations.
use nasm.Prelude.{
  ℕ, Bool, true, false, not, ◌&&◌, ◌||◌, List, [], ◌∷◌, ◌++◌, Option, none, some, get_elem?, ◌==◌,
  if◌then◌else◌,
}
use nasm.Nasmlib.Hashtbl.{same_key_i}
use nasm.Labels.{
  LabelType, lbl_local, lbl_static, lbl_global, lbl_extern, lbl_required, lbl_common, lbl_special,
  lbl_backend, same_type, is_extern, is_global, pass_stable, Label, Message,
  inconsistent_attributes, declared_both, Mangling, Symbols, Env, find_label, put_label,
}

-- The directives that set a part; any other does nothing.
pub data MangleIndex : Type 0 where
  lm_lprefix : MangleIndex
  lm_lsuffix : MangleIndex
  lm_gprefix : MangleIndex
  lm_gsuffix : MangleIndex

-- Once set, a part does not change.
abbrev pub set_once : Option (List ℕ) → List ℕ → Option (List ℕ)
set_once none what = some what
set_once (some old) what = some old

abbrev pub set_label_mangle : Mangling → MangleIndex → List ℕ → Mangling
set_label_mangle m lm_lprefix what = record m { lprefix = set_once m.lprefix what }
set_label_mangle m lm_lsuffix what = record m { lsuffix = set_once m.lsuffix what }
set_label_mangle m lm_gprefix what = record m { gprefix = set_once m.gprefix what }
set_label_mangle m lm_gsuffix what = record m { gsuffix = set_once m.gsuffix what }

abbrev pub mangle_string : Option (List ℕ) → List ℕ
mangle_string none = []
mangle_string (some text) = text

-- The prefix and the suffix for a type.
abbrev pub mangle_strings : Mangling → LabelType → List ℕ × List ℕ
mangle_strings m lbl_global = (mangle_string m.gprefix, mangle_string m.gsuffix)
mangle_strings m lbl_static = (mangle_string m.gprefix, mangle_string m.gsuffix)
mangle_strings m lbl_extern = (mangle_string m.gprefix, mangle_string m.gsuffix)
mangle_strings m lbl_required = (mangle_string m.gprefix, mangle_string m.gsuffix)
mangle_strings m lbl_backend = ([], [])
mangle_strings m lbl_special = ([], [])
mangle_strings m lbl_local = (mangle_string m.lprefix, mangle_string m.lsuffix)
mangle_strings m lbl_common = (mangle_string m.lprefix, mangle_string m.lsuffix)

abbrev pub mangled_now : Mangling → Label → Label
mangled_now m l =
    let (prefix, suffix) = mangle_strings m l.type in
    record l { mangled_type = l.type; mangled = some (prefix ++ (l.label ++ suffix)) }

abbrev pub mangle_label_name : Mangling → Label → Label
mangle_label_name m l =
    let now = mangled_now m l in
    elim l.mangled [ none ↦ now | some text ↦ if same_type l.mangled_type l.type then l else now ]

abbrev pub without_empty : Option (List ℕ) → Option (List ℕ)
without_empty (some (c ∷ r)) = some (c ∷ r)
without_empty _ = none

-- The special text of a label that already has the type, with the message where it has another one.
abbrev pub specialised : Env → Label → Option (List ℕ) → Label × List Message
specialised env l none = (l, [])
specialised env l (some text) = elim l.special [
  | none ↦ (record l { special = some text }, [])
  | some old ↦ (
    l,
    if same_key_i env.tolower old text then [] else inconsistent_attributes l.label old text ∷ [],
  )
]

abbrev pub or_special : Option (List ℕ) → Option (List ℕ) → Option (List ℕ)
or_special none new = new
or_special (some old) new = some old

-- A local label that is not yet stable takes the type, or becomes global if it has been defined.
abbrev pub promoted : Env → Label → LabelType → LabelType
promoted env l type =
    if not (pass_stable env.pass_type) && same_type l.type lbl_local
    then (if is_extern type && not (l.defined == 0) then lbl_global else type)
    else l.type

abbrev pub stays_type : LabelType → LabelType → Bool
stays_type oldtype type =
    same_type oldtype type || (same_type oldtype lbl_extern && same_type type lbl_required)

abbrev pub with_message : Label × List Message → Label × Bool × List Message
with_message (l, messages) = (l, true, messages)

-- The label with its type so far, `oldtype`: whether it may be defined, and the messages.
unfoldable pub declare_as :
    Env → Label → LabelType → LabelType → Option (List ℕ) → Label × Bool × List Message
declare_as env l oldtype type text =
    let l' = record l { type = oldtype } in
    if stays_type oldtype type
    then with_message (specialised env (record l { type = type }) text)
    else if is_extern oldtype && is_global type
    then (record l { type = type; defined = 0; special = or_special text l.special }, true, [])
    else if is_extern type && (is_global oldtype || is_extern oldtype)
    then (record l' { special = or_special l.special text }, false, [])
    else (l', false, declared_both l.label oldtype type ∷ [])

unfoldable pub declare_label_lptr :
    Env → Label → LabelType → Option (List ℕ) → Label × Bool × List Message
unfolding declare_as
declare_label_lptr env l type special =
    declare_as env l (promoted env l type) type (without_empty special)

-- The label behind a pointer, after a step on it.
abbrev pub declared : Symbols → ℕ → Label × Bool × List Message → Symbols × Bool
declared s i (l, ok, messages) =
    (record (put_label s i l) { messages = s.messages ++ messages }, ok)

abbrev pub declare_at :
    Env → LabelType → Option (List ℕ) → Option (Symbols × Option ℕ × Bool) → Option (Symbols × Bool)
unfolding declare_label_lptr
declare_at env type special none = none
declare_at env type special (some (s, none, created)) = none
declare_at env type special (some (s, some i, created)) = elim (get_elem? s.ldata i) [
  | none ↦ none
  | some l ↦ some (declared s i (declare_label_lptr env l type special))
]

unfoldable pub declare_label :
    Env → Symbols → List ℕ → LabelType → Option (List ℕ) → Option (Symbols × Bool)
unfolding find_label declare_at
declare_label env s label type special = declare_at env type special (find_label env s label true)
