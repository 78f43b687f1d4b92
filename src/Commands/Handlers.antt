-- ===== src/Commands/Handlers.antt =====
-- src/debugger.c: the execution of a command that was parsed. What a command writes to the terminal
-- is a list of replies, with the values and the texts in them; `none` is a run that had not enough
-- fuel, or one that C leaves undefined.
use spray.Base.{
  ℕ, Bool, true, false, Option, none, some, List, [], ◌∷◌, ◌++◌, CString, if◌then◌else◌,
}
use spray.Magic.{SprayResult, sp_ok, sp_err}
use spray.Magic.Format.{fmt_bytes, print_format}
use spray.Ptrace.{Ptrace, pt_read_memory, pt_write_memory}
use spray.Registers.{X86Reg, get_register_value, set_register_value}
use spray.Breakpoints.{Table, Target}
use spray.Backtrace.{CallFrame}
use spray.Location.{SdLocation, loc_addr, loc_reg}
use spray.Value.{
  Floats, RuntimeVariable, mask_var_value, print_var_value, print_var_deref_value, print_var_loc,
}
use spray.Variable.Loclist.{InitVar, var, null, undefined, out_of_fuel}
use spray.Commands.{PrintFilter, pf, pf_deref, default_filter}

pub data PrintValueInfo : Type 0 where
  mem_read mem_read_confirm reg_read reg_read_confirm var_read var_read_confirm : PrintValueInfo

-- The messages of `repl_err`.
pub data Message : Type 0 where
  trailing_characters unknown_command invalid_filter invalid_register_name : Message
  missing_location invalid_location missing_value invalid_value no_command_to_repeat : Message
  cannot_dereference cannot_read_memory cannot_write_memory cannot_confirm_memory : ℕ → Message
  cannot_read_register cannot_write_register cannot_confirm_register : X86Reg → Message
  no_variable cannot_read_variable cannot_write_variable cannot_confirm_variable : CString → Message
  no_backtrace : Message

pub data Reply : Type 0 where
  repl_err : Message → Reply
  -- the value, and the register or the place of the variable
  value_shown : PrintValueInfo → CString → Option CString → Reply
  -- the value at an address
  deref_shown : CString → ℕ → Reply
  -- a variable that has the name of a register
  name_conflict : CString → Reply
  -- whether a breakpoint was hit, the path and the line
  source_shown : Bool → CString → ℕ → Reply
  no_source : ℕ → Reply
  backtrace_shown : CallFrame → Reply

-- Where a variable of some name is for a PC: `init_var`, with the debug information it searches.
pub record VariableSource ⦃K : Ptrace⦄ : Type 0 where
  pub find_var : K.Sys → ℕ → CString → InitVar

-- What a value is printed for: none, a register with its name, or a variable.
pub data Subject : Type 0 where
  a_word : Subject
  a_register : CString → Subject
  a_variable : RuntimeVariable → Subject

abbrev variable_of : Subject → Option RuntimeVariable
variable_of a_word = none
variable_of (a_register name) = none
variable_of (a_variable v) = some v

abbrev is_var_read : PrintValueInfo → Bool
is_var_read var_read = true
is_var_read _ = false

-- The replies of a command that leaves the process alone.
abbrev pub Replies : Type 0
Replies = Option (List Reply)

abbrev pub says : Message → Replies
says m = some (repl_err m ∷ [])

abbrev pub says_first : List Reply → Replies → Replies
says_first before none = none
says_first before (some replies) = some (before ++ replies)

module _ ⦃K : Ptrace⦄ where
  -- The replies, and the process after the command.
  abbrev pub Executed : Type 0
  Executed = Option (List Reply × K.Sys)

  abbrev pub with_process : K.Sys → Replies → Executed
  with_process s none = none
  with_process s (some replies) = some (replies, s)

module _ ⦃K : Ptrace⦄ ⦃H : Table⦄ where
  -- The process and what was said about it.
  abbrev pub Handled : Type 0
  Handled = Option (List Reply × Target K H)

module _ ⦃K : Ptrace⦄ (F : Floats) (cwd : Option CString) where
  abbrev print_deref : PrintValueInfo → Subject → ℕ → Option ℕ → Replies
  print_deref info subject addr none = says (cannot_dereference addr)
  print_deref info subject addr (some deref) =
      let text =
        if is_var_read info
        then print_var_deref_value F (variable_of subject) deref fmt_bytes
        else print_format deref fmt_bytes in
      some (deref_shown text addr ∷ [])

  abbrev show_at : PrintValueInfo → CString → Option CString → Replies
  show_at info text none = none
  show_at info text (some loc_str) = some (value_shown info text (some loc_str) ∷ [])

  unfoldable pub print_filtered : K.Sys → ℕ → PrintFilter → PrintValueInfo → Subject → Replies
  unfolding print_format print_var_value print_var_deref_value print_var_loc mask_var_value
      pt_read_memory
  print_filtered s value pf_deref info subject =
      let addr = if is_var_read info then mask_var_value (variable_of subject) value else value in
      print_deref info subject addr (pt_read_memory s addr)
  print_filtered s value (pf f) info a_word =
      some (value_shown info (print_format value f) none ∷ [])
  print_filtered s value (pf f) info (a_register reg_name) =
      some (value_shown info (print_format value f) (some reg_name) ∷ [])
  print_filtered s value (pf f) info (a_variable v) =
      show_at info (print_var_value F (some v) value f) (print_var_loc cwd (some v))

  unfoldable pub exec_print_memory : K.Sys → ℕ → PrintFilter → Replies
  unfolding print_filtered pt_read_memory default_filter
  exec_print_memory s addr filter = elim (pt_read_memory s addr) [
    | none ↦ says (cannot_read_memory addr)
    | some read ↦ print_filtered s read (default_filter filter (pf fmt_bytes)) mem_read a_word
  ]

  -- What is read back after a write.
  abbrev pub confirm_memory : K.Sys → ℕ → PrintFilter → Option ℕ → Replies
  confirm_memory s addr filter none = says (cannot_confirm_memory addr)
  confirm_memory s addr filter (some stored) =
      print_filtered s stored (default_filter filter (pf fmt_bytes)) mem_read_confirm a_word

  unfoldable pub exec_set_memory : K.Sys → ℕ → ℕ → PrintFilter → Executed
  unfolding print_filtered pt_read_memory pt_write_memory default_filter
  exec_set_memory s addr word filter =
      let (res, s') = pt_write_memory s addr word in
      elim res [
        | sp_err ↦ with_process s' (says (cannot_write_memory addr))
        | sp_ok ↦ with_process s' (confirm_memory s' addr filter (pt_read_memory s' addr))
      ]

  unfoldable pub exec_print_register : K.Sys → X86Reg → CString → PrintFilter → Replies
  unfolding print_filtered get_register_value default_filter
  exec_print_register s reg reg_name filter = elim (get_register_value s reg) [
    | none ↦ says (cannot_read_register reg)
    | some reg_word ↦
        print_filtered s reg_word (default_filter filter (pf fmt_bytes)) reg_read
          (a_register reg_name)
  ]

  abbrev confirm_register : K.Sys → X86Reg → CString → PrintFilter → Option ℕ → Replies
  confirm_register s reg reg_name filter none = says (cannot_confirm_register reg)
  confirm_register s reg reg_name filter (some written) =
      print_filtered s written (default_filter filter (pf fmt_bytes)) reg_read_confirm
        (a_register reg_name)

  -- The code reads the register also after a write that failed.
  unfoldable pub exec_set_register : K.Sys → X86Reg → CString → ℕ → PrintFilter → Executed
  unfolding print_filtered get_register_value set_register_value default_filter
  exec_set_register s reg reg_name word filter =
      let (res, s') = set_register_value s reg word in
      let failure : List Reply = elim res [
        | sp_err ↦ repl_err (cannot_write_register reg) ∷ []
        | sp_ok ↦ []
      ] in
      with_process s'
        (says_first failure (confirm_register s' reg reg_name filter (get_register_value s' reg)))

  abbrev read_place : K.Sys → SdLocation → Option ℕ
  read_place s (loc_addr addr) = pt_read_memory s addr
  read_place s (loc_reg reg) = get_register_value s reg

  abbrev write_place : K.Sys → SdLocation → ℕ → SprayResult × K.Sys
  write_place s (loc_addr addr) value = pt_write_memory s addr value
  write_place s (loc_reg reg) value = set_register_value s reg value

  abbrev show_variable : K.Sys → CString → RuntimeVariable → PrintFilter → Option ℕ → Replies
  show_variable s var_name v filter none = says (cannot_read_variable var_name)
  show_variable s var_name v filter (some value) =
      print_filtered s value filter var_read (a_variable v)

  unfoldable pub exec_print_variable : K.Sys → CString → InitVar → PrintFilter → Replies
  unfolding print_filtered pt_read_memory get_register_value
  exec_print_variable s var_name (var v) filter =
      show_variable s var_name v filter (read_place s v.loc)
  exec_print_variable s var_name null filter = says (no_variable var_name)
  exec_print_variable s var_name undefined filter = none
  exec_print_variable s var_name out_of_fuel filter = none

  -- The word that was asked for is printed, not the one that is read back.
  abbrev confirm_variable : K.Sys → CString → RuntimeVariable → ℕ → PrintFilter → Option ℕ → Replies
  confirm_variable s var_name v value filter none = says (cannot_confirm_variable var_name)
  confirm_variable s var_name v value filter (some value_after) =
      print_filtered s value filter var_read_confirm (a_variable v)

  unfoldable pub exec_set_variable : K.Sys → CString → InitVar → ℕ → PrintFilter → Executed
  unfolding print_filtered pt_read_memory pt_write_memory get_register_value set_register_value
  exec_set_variable s var_name (var v) value filter =
      let (res, s') = write_place s v.loc value in
      elim res [
        | sp_err ↦ with_process s' (says (cannot_write_variable var_name))
        | sp_ok ↦
            with_process s' (confirm_variable s' var_name v value filter (read_place s' v.loc))
      ]
  exec_set_variable s var_name null value filter = with_process s (says (no_variable var_name))
  exec_set_variable s var_name undefined value filter = none
  exec_set_variable s var_name out_of_fuel value filter = none
