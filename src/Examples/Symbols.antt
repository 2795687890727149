-- ===== src/Examples/Symbols.antt =====
-- Labels at concrete inputs.
use nasm.Prelude.{◌≡◌, refl, true, false, [], ◌∷◌, none, some, if◌then◌else◌}
use nasm.Nasmlib.Hashtbl.{new_table, hash_find_by}
use nasm.Labels.{
  inconsistently_redefined, LabelType, lbl_global, lbl_common, same_type, pass_opt, Label,
  new_label, Symbols, Env, init_labels, lookup_label,
}
use nasm.Labels.Define.{define_at, define_label}
use nasm.Labels.Again.{define_at_again}
use nasm.Labels.Agreement.{by_extern, by_global, type_after_both, declare_label_lptr_comm}
use nasm.Labels.Table.{IsSymbols}
use nasm.Labels.Lookup.{lookup_label-define_label}
use nasm.Examples.Tables.{start}

abbrev env : Env
env = record {
  tasm_compatible_mode = false;
  pass_type = pass_opt;
  pass_count = 2;
  source = (0, 1);
  tolower = λ c. c;
  herelabel = none;
}

abbrev symbols : Symbols
symbols = init_labels record {
  ltab = new_table;
  ldata = [];
  prevlabel = [];
  initialized = false;
  mangling = record { lprefix = none; lsuffix = none; gprefix = none; gsuffix = none };
  global_offset_changed = 0;
  next_seg = 2;
  assembly = start;
  messages = [];
  symdefs = [];
}

symbols-IsSymbols : IsSymbols symbols
unfolding hash_find_by
symbols-IsSymbols = record { hashed = tt; known = λ key. refl }

lookup_label-define_label_example :
    (s : Symbols) × (noted : Symbols) × (t : LabelType) × (define_label env symbols
        (97 ∷ [])
        4
        16
        true
      ≡ some s)
    × IsSymbols s
    × (lookup_label env s (97 ∷ [])
        ≡ some (noted, some (t, 4, if same_type t lbl_common then 0 else 16)))
lookup_label-define_label_example =
    lookup_label-define_label env symbols (97 ∷ []) 4 16 true symbols-IsSymbols refl refl refl

declare_label_lptr_comm_example :
    (type_after_both env (new_label (97 ∷ [])) by_extern none by_global none ≡ lbl_global)
    × (type_after_both env (new_label (97 ∷ [])) by_global none by_extern none ≡ lbl_global)
declare_label_lptr_comm_example =
    declare_label_lptr_comm env (new_label (97 ∷ [])) by_extern by_global none none refl refl refl
      refl

-- The label "a", defined in this pass.
abbrev a_label : Label
a_label = record (new_label (97 ∷ [])) {
  segment = 4;
  offset = 16;
  defined = 3;
  type = lbl_global;
  def_at = (0, 7);
}

define_at_again_example :
    ((define_at env symbols 0 a_label false (97 ∷ []) 4 18 true).messages
      ≡ inconsistently_redefined (97 ∷ []) (0, 7) ∷ [])
    × ((define_at env symbols 0 a_label false (97 ∷ []) 4 18 true).symdefs ≡ [])
    × ((define_at env symbols 0 a_label false (97 ∷ []) 4 18 true).global_offset_changed ≡ 1)
define_at_again_example =
    define_at_again env symbols 0 a_label (97 ∷ []) 4 18 true refl refl refl refl refl refl
