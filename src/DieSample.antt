-- ===== src/DieSample.antt =====
-- One unit as libdwarf would read it, for the examples: a unit of Clang (1) from
-- /home/main.c with a function `main` (2) from 0x10 to 0x20 with a parameter `x` (3), a variable
-- `g` (4), and the types `int` (5) and `int *` (6).
use spray.Base.{
  ℕ, zero, suc, Bool, true, false, List, [], ◌∷◌, CString, bytes, ◌==◌, if◌then◌else◌, ◌||◌, ◌&&◌,
  ◌/◌, refl, arith,
}
use spray.Die.{
  DwarfResult, ok, no_entry, error, Libdwarf, FormClass, tag_compile_unit, tag_subprogram,
  tag_variable, tag_formal_parameter, at_location, at_type, at_producer, at_name, at_comp_dir,
}
use spray.Die.Preorder.{end, node}
use spray.Die.Units.{UnitDies, Walk, AllFit}

abbrev pick : {A : Type 0} → List (ℕ × A) → ℕ → DwarfResult A
pick [] die = no_entry
pick ((d, a) ∷ table) die = if d == die then ok a else pick table die

abbrev names : List (ℕ × CString)
names =
    (1, bytes "main.c")
    ∷ (2, bytes "main")
    ∷ (3, bytes "x")
    ∷ (4, bytes "g")
    ∷ (5, bytes "int")
    ∷ []

abbrev tags : List (ℕ × ℕ)
tags =
    (1, tag_compile_unit)
    ∷ (2, tag_subprogram)
    ∷ (3, tag_formal_parameter)
    ∷ (4, tag_variable)
    ∷ (5, 0x24)
    ∷ (6, 0x0f)
    ∷ []

abbrev types : List (ℕ × ℕ)
types = (3, 6) ∷ (4, 5) ∷ (6, 5) ∷ []

abbrev is_ok : {A : Type 0} → DwarfResult A → DwarfResult ℕ
is_ok (ok a) = ok 1
is_ok no_entry = ok 0
is_ok error = error

abbrev has : ℕ → ℕ → DwarfResult ℕ
has die attr =
    if attr == at_type
    then is_ok (pick types die)
    else if attr == at_location
    then ok (if die == 3 || die == 4 then 1 else 0)
    else ok (if die == 1 && (attr == at_name || attr == at_comp_dir) then 1 else 0)

abbrev text : ℕ → ℕ → DwarfResult CString
text die attr =
    if attr == at_producer
    then pick ((1, bytes "Ubuntu clang version 14") ∷ []) die
    else if attr == at_name
    then pick names die
    else if attr == at_comp_dir
    then pick ((1, bytes "/home") ∷ []) die
    else no_entry

-- The place 0 is before the header, and 1 behind it.
abbrev header : ℕ → Bool → DwarfResult (Unit {0}) × ℕ
header zero true = (ok tt, 1)
header (suc place) true = (no_entry, 0)
header place false = (no_entry, place)

abbrev location : ℕ → ℕ → DwarfResult ℕ
location die attr = if attr == at_location then ok die else no_entry

instance abbrev pub sample : Libdwarf
sample = record {
  Debug = ℕ;
  Die = ℕ;
  Attribute = ℕ;
  next_cu_header = header;
  cu_die = λ place is_info. ok 1;
  child = pick ((1, 2) ∷ (2, 3) ∷ []);
  siblingof = λ die is_info. pick ((2, 4) ∷ (4, 5) ∷ (5, 6) ∷ []) die;
  tag = pick tags;
  hasattr = has;
  attr = location;
  diename = pick names;
  die_text = text;
  lowpc = pick ((2, 0x10) ∷ []);
  highpc = pick ((2, record { value = 0x10; form = 0x07 }) ∷ []);
  addr_form_is_indexed = λ form. false;
  bytesize = pick ((5, 4) ∷ []);
  dietype_offset = λ die. elim (pick types die) [
    | ok t ↦ ok (record { off = t; is_info = true })
    | no_entry ↦ no_entry
    | error ↦ error
  ];
  cu_dieoffset_given_die = λ die. ok 1;
  offdie = λ off is_info. ok off;
  srcfiles = λ die. no_entry;
  formudata = λ attr. error;
  whatform = λ attr. ok 0x18;
  whatattr = λ attr. ok at_location;
  version_of_die = λ die. ok (record { version = 5; offset_size = 4 });
  form_class = λ version num offset_size form. FormClass.class_exprloc;
  LineContext = ℕ;
  Line = ℕ;
  srclines = λ die. ok (record { table_count = 1; context = die });
  srclines_from_linecontext = λ context. ok (0x10 ∷ 0x14 ∷ 0x1c ∷ []);
  lineno = λ line. ok (line / 4);
  lineoff = λ line. ok 1;
  lineaddr = λ line. ok line;
  linesrc = λ line. ok (bytes "/home/main.c");
  linebeginstatement = λ line. ok 1;
  prologue_end_etc = λ line. ok (if line == 0x14 then 1 else 0);
  LocHead = ℕ;
  Locdesc = ℕ;
  get_loclist = λ attr. ok (record { head = attr; count = 1 });
  get_locdesc_entry = λ head i.
      ok (record { debug_addr_missing = 0; low_pc = 0; high_pc = 0; op_count = 1; entry = head });
  get_location_op_value = λ entry i. ok (record { opcode = 0x03; operand1 = 0x4010 });
}

abbrev pub units : List (UnitDies ⦃W = sample⦄)
units =
    record {
      place = 1;
      die = 1;
      below = node 2 (node 3 end end) (node 4 end (node 5 end (node 6 end end)));
    }
    ∷ []

abbrev pub units_walk : Walk true 0 units 0
units_walk = (
  refl,
  refl,
  (refl, (refl, refl, refl), (refl, refl, (refl, refl, (refl, refl, refl)))),
  refl,
  refl,
)

abbrev pub units_fit : AllFit 9 units
units_fit = (omega arith, tt)
