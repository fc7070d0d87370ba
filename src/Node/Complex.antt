-- ===== src/Node/Complex.antt =====
-- CPCluster_node/src/lib.rs: `eval_complex`, a stack machine on the tokens of meval in reverse
-- Polish order. The tokenizer, the reordering and the arithmetic of `Complex64` are parameters.
pub mod Postfix
use Prim.Native.String
use cpcluster.Prelude.{Outcome, done, failed, String, List, [], ◌∷◌, if◌then◌else◌, str_eq}
use cpcluster.Common.Protocol.{F64}

-- `Complex64`
pub record Complex : Type 0 where
  pub re : F64
  pub im : F64

-- meval's `Operation`
pub data Operation : Type 0 where
  plus minus times div pow rem : Operation

-- meval's `Token`; `other` are parentheses, commas and function names.
pub data Token : Type 0 where
  number : F64 → Token
  var : String → Token
  binary unary : Operation → Token
  other : Token

-- The libraries: tokens, and floating-point arithmetic on the bits.
pub record Library : Type 0 where
  pub tokenize : String → Outcome (List Token)
  pub to_rpn : List Token → Outcome (List Token)
  pub add : Complex → Complex → Complex
  pub sub : Complex → Complex → Complex
  pub mul : Complex → Complex → Complex
  pub quotient : Complex → Complex → Complex
  pub powc : Complex → Complex → Complex
  pub neg : Complex → Complex
  pub fmod : F64 → F64 → F64

-- `Complex64::new(n, 0.0)`
abbrev pub real : F64 → Complex
real n = record { re = n; im = 0 }

-- `Complex64::new(0.0, 1.0)`, by the bits of 1.0.
abbrev pub imaginary_unit : Complex
imaginary_unit = record { re = 0; im = 0x3ff0000000000000 }

module _ (lib : Library) where
  open lib use {tokenize, to_rpn, add, sub, mul, quotient, powc, neg, fmod}

  abbrev pub apply_binary : Operation → Complex → Complex → Complex
  apply_binary plus a b = add a b
  apply_binary minus a b = sub a b
  apply_binary times a b = mul a b
  apply_binary div a b = quotient a b
  apply_binary pow a b = powc a b
  apply_binary rem a b = record { re = fmod a.re b.re; im = a.im }

  abbrev pub apply_unary : Operation → Complex → Outcome Complex
  apply_unary plus a = done a
  apply_unary minus a = done (neg a)
  apply_unary _ a = failed "unsupported unary"

  -- `stack.push`, where there is a value.
  abbrev pub push : List Complex → Outcome Complex → Outcome (List Complex)
  push stack (done c) = done (c ∷ stack)
  push stack (failed e) = failed e

  abbrev pub binary_step : Operation → List Complex → Outcome (List Complex)
  binary_step op (b ∷ a ∷ stack) = done (apply_binary op a b ∷ stack)
  binary_step op _ = failed "stack underflow"

  abbrev pub unary_step : Operation → List Complex → Outcome (List Complex)
  unary_step op (a ∷ stack) = push stack (apply_unary op a)
  unary_step op [] = failed "stack underflow"

  -- One round of the loop; the top of the stack stands first.
  unfoldable pub step : Token → List Complex → Outcome (List Complex)
  step (number n) stack = done (real n ∷ stack)
  step (var v) stack =
      if str_eq v "i" then done (imaginary_unit ∷ stack) else failed (String.◌++◌ "unknown var " v)
  step (binary op) stack = binary_step op stack
  step (unary op) stack = unary_step op stack
  step other stack = failed "unsupported token"

  abbrev pub result_of : List Complex → Outcome Complex
  result_of [] = failed "no result"
  result_of (c ∷ stack) = done c

  unfoldable pub run : List Token → List Complex → Outcome Complex
  run [] stack = result_of stack
  run (t ∷ rpn) stack = elim (step t stack) [ done after ↦ run rpn after | failed e ↦ failed e ]

  unfoldable pub eval_complex : String → Outcome Complex
  eval_complex expr = elim (tokenize expr) [
    | failed e ↦ failed e
    | done tokens ↦ elim (to_rpn tokens) [ failed e ↦ failed e | done rpn ↦ run rpn [] ]
  ]
