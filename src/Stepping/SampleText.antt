-- ===== src/Stepping/SampleText.antt =====
-- The text of the sample process, which it does not write to.
use spray.Base.{ℕ, Bool, arith, ltb}
use spray.Sample.{machine, machine-IsPtrace, machine-byte_at, next_status, table}
use spray.Stepping.Safety.{KeepsText}

abbrev pub text : ℕ → Bool
text b = ltb b 0x4000

pub machine-KeepsText : KeepsText machine-IsPtrace text
machine-KeepsText = record {
  single_step_text = λ s s' b h i. ground (arith, machine-byte_at s b, machine-byte_at s' b);
  cont_text = λ s b i. ground (arith, machine-byte_at s b, machine-byte_at (machine.cont s).sys b);
  waitpid_text =
      λ s b i. ground (arith, machine-byte_at s b, machine-byte_at (next_status s).sys b);
}
