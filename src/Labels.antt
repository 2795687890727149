-- ===== src/Labels.antt =====
-- asm/labels.c: the symbols of a program, over all passes.
--
-- A label is pointed to by its place among all labels; strings are lists of bytes without the zero
-- byte. The blocks that labels and text are allocated in are not modelled: nothing in them is freed
-- before the end. Segments are numbers of 32 bits and offsets of 64. The result is none where a search
-- in the hash table does not end.
pub mod Declare
pub mod Define
pub mod Agreement
pub mod Sites
pub mod Steps
pub mod Table
pub mod Lookup
pub mod Again
use nasm.Prelude.{
  ℕ, ◌+◌, Bool, true, false, not, ◌&&◌, ◌||◌, List, [], ◌∷◌, ◌++◌, Option, none, some, length,
  get_elem?, set, ◌==◌, leb, if◌then◌else◌,
}
use nasm.Expr.{no_seg}
use nasm.Nasmlib.Hashtbl.{
  HashTable, HashInsert, Found, found, absent, new_table, hash_find, hash_find_by, hash_add,
  hash_free,
}
use nasm.Nasmlib.Hashtbl.Map.{slot_data}
use nasm.Location.{Assembly}

-- LBL_none is the absence of a type.
pub data LabelType : Type 0 where
  lbl_local : LabelType
  lbl_static : LabelType
  lbl_global : LabelType
  lbl_extern : LabelType
  lbl_required : LabelType
  lbl_common : LabelType
  lbl_special : LabelType
  lbl_backend : LabelType

-- The numbers of the enumeration, which tests compare.
abbrev pub type_number : LabelType → ℕ
type_number lbl_local = 0
type_number lbl_static = 1
type_number lbl_global = 2
type_number lbl_extern = 3
type_number lbl_required = 4
type_number lbl_common = 5
type_number lbl_special = 6
type_number lbl_backend = 7

abbrev pub same_type : LabelType → LabelType → Bool
same_type s t = type_number s == type_number t

abbrev pub is_extern : LabelType → Bool
is_extern type = same_type type lbl_extern || same_type type lbl_required

abbrev pub is_global : LabelType → Bool
is_global type = same_type type lbl_global || same_type type lbl_common

pub data PassType : Type 0 where
  pass_init : PassType
  pass_preproc : PassType
  pass_first : PassType
  pass_opt : PassType
  pass_stab : PassType
  pass_code : PassType

abbrev pub pass_number : PassType → ℕ
pass_number pass_init = 0
pass_number pass_preproc = 1
pass_number pass_first = 2
pass_number pass_opt = 3
pass_number pass_stab = 4
pass_number pass_code = 5

abbrev pub pass_stable : PassType → Bool
pass_stable p = leb (pass_number pass_stab) (pass_number p)

abbrev pub pass_final : PassType → Bool
pass_final p = leb (pass_number pass_code) (pass_number p)

-- `def_at` is the file and the line.
pub record Label : Type 0 where
  pub segment : ℕ
  pub subsection : ℕ
  pub offset : ℕ
  pub size : ℕ
  pub defined : ℕ
  pub lastref : ℕ
  pub label : List ℕ
  pub mangled : Option (List ℕ)
  pub special : Option (List ℕ)
  pub def_at : ℕ × ℕ
  pub type : LabelType
  pub mangled_type : LabelType

abbrev pub new_label : List ℕ → Label
new_label label = record {
  segment = 0;
  subsection = no_seg;
  offset = 0;
  size = 0;
  defined = 0;
  lastref = 0;
  label = label;
  mangled = none;
  special = none;
  def_at = (0, 0);
  type = lbl_local;
  mangled_type = lbl_local;
}

-- What is reported. The last two are warnings that a label has changed during code generation.
pub data Message : Type 0 where
  inconsistent_attributes : List ℕ → List ℕ → List ℕ → Message
  declared_both : List ℕ → LabelType → LabelType → Message
  inconsistently_redefined : List ℕ → ℕ × ℕ → Message
  redefined : List ℕ → ℕ × ℕ → Message
  changed_offset : List ℕ → ℕ → ℕ → Message
  changed_undead : List ℕ → Bool → Message

-- What is passed to the output format and the debug format: the name, the segment, the offset, the
-- kind and the special text.
pub data Symdef : Type 0 where
  symdef : Option (List ℕ) → ℕ → ℕ → ℕ → Option (List ℕ) → Symdef
  debug_deflabel : Option (List ℕ) → ℕ → ℕ → ℕ → Option (List ℕ) → Symdef

-- The prefixes and suffixes that have been set.
pub record Mangling : Type 0 where
  pub lprefix : Option (List ℕ)
  pub lsuffix : Option (List ℕ)
  pub gprefix : Option (List ℕ)
  pub gsuffix : Option (List ℕ)

pub record Symbols : Type 0 where
  pub ltab : HashTable
  pub ldata : List Label
  pub prevlabel : List ℕ
  pub initialized : Bool
  pub mangling : Mangling
  pub global_offset_changed : ℕ
  pub next_seg : ℕ
  pub assembly : Assembly
  pub messages : List Message
  pub symdefs : List Symdef

-- What the rest of the program keeps: the options, the pass, the place in the source, the small letter
-- of a character, and `herelabel` of the output format, which yields the segment, the subsection and
-- whether the offset is copied.
pub record Env : Type 0 where
  pub tasm_compatible_mode : Bool
  pub pass_type : PassType
  pub pass_count : ℕ
  pub source : ℕ × ℕ
  pub tolower : ℕ → ℕ
  pub herelabel : Option (Option (List ℕ) → LabelType → ℕ → ℕ → ℕ × ℕ × Bool)

abbrev pub char_at : List ℕ → ℕ → ℕ
char_at l i = elim (get_elem? l i) [ none ↦ 0 | some c ↦ c ]

abbrev pub is_tasm_local : Env → List ℕ → Bool
is_tasm_local env l = env.tasm_compatible_mode && (char_at l 0 == 0x40 && char_at l 1 == 0x40)

abbrev pub islocal : Env → List ℕ → Bool
islocal env l = is_tasm_local env l || (char_at l 0 == 0x2e && not (char_at l 1 == 0x2e))

abbrev pub ismagic : List ℕ → Bool
ismagic l = char_at l 0 == 0x2e && (char_at l 1 == 0x2e && not (char_at l 2 == 0x40))

abbrev pub set_prevlabel : Env → List ℕ → Bool
set_prevlabel env l = not (is_tasm_local env l) && not (char_at l 0 == 0x2e)

-- The name that a label is found by.
abbrev pub full_name : Env → Symbols → List ℕ → List ℕ
full_name env s label = if islocal env label then s.prevlabel ++ label else label

abbrev pub local_scope : Env → Symbols → List ℕ → List ℕ
local_scope env s label = if islocal env label then s.prevlabel else []

-- The label, and whether it has been created.
abbrev pub created_label :
    Symbols → List ℕ → Option (HashTable × ℕ) → Option (Symbols × Option ℕ × Bool)
created_label s name none = none
created_label s name (some (ltab, np)) = some (
  record s { ltab = ltab; ldata = s.ldata ++ (new_label name ∷ []) },
  some (length s.ldata),
  true,
)

unfoldable pub label_found :
    Symbols → List ℕ → Bool → Option Found → Option (Symbols × Option ℕ × Bool)
unfolding hash_add
label_found s name create none = none
label_found s name create (some (found p)) = some (s, slot_data s.ltab.table p, false)
label_found s name create (some (absent ip)) =
    if create
    then created_label s name (hash_add s.ltab ip (length s.ldata))
    else some (s, none, false)

unfoldable pub find_label : Env → Symbols → List ℕ → Bool → Option (Symbols × Option ℕ × Bool)
unfolding label_found hash_find_by
find_label env s label create =
    let name = full_name env s label in label_found s name create (hash_find s.ltab name)

abbrev pub put_label : Symbols → ℕ → Label → Symbols
put_label s i l = record s { ldata = set s.ldata i l }

-- A reference to a label, which notes the pass.
abbrev pub referred : Env → Symbols → ℕ → Option Label → Symbols × Option (LabelType × ℕ × ℕ)
referred env s i none = (s, none)
referred env s i (some l) = if l.defined == 0 then (s, none) else (
  put_label s i (record l { lastref = env.pass_count + 1 }),
  some (l.type, l.segment, l.offset),
)

abbrev pub looked_up :
    Env → Option (Symbols × Option ℕ × Bool) → Option (Symbols × Option (LabelType × ℕ × ℕ))
looked_up env none = none
looked_up env (some (s, none, created)) = some (s, none)
looked_up env (some (s, some i, created)) = some (referred env s i (get_elem? s.ldata i))

unfoldable pub lookup_label : Env → Symbols → List ℕ → Option (Symbols × Option (LabelType × ℕ × ℕ))
unfolding find_label
lookup_label env s label =
    if s.initialized then looked_up env (find_label env s label false) else some (s, none)

abbrev pub init_labels : Symbols → Symbols
init_labels s = record s { ldata = []; prevlabel = []; initialized = true }

abbrev pub cleanup_labels : Symbols → Symbols
cleanup_labels s = record s { initialized = false; ltab = hash_free s.ltab; ldata = [] }
