-- ===== src/Node/Complex/Postfix.antt =====
-- Expression trees, their postfix tokens, and what the stack machine makes of them.
use cpcluster.Prelude.{
  done, Outcome-cases, String, List, [], ◌∷◌, ◌≡◌, ◌≢◌, refl, true, false, str_eq, arith, any, not,
  Bool, ◌∙◌, Bool-cases, inl, inr,
}
use cpcluster.Common.Protocol.{F64}
use cpcluster.Node.Complex.{
  Complex, Operation, Token, number, var, binary, unary, plus, minus, Library, real, imaginary_unit,
  apply_binary, step, run, eval_complex,
}

-- What the machine supports.
pub data Expr : Type 0 where
  literal : F64 → Expr
  unit_i : Expr
  operate : Operation → Expr → Expr → Expr
  positive negative : Expr → Expr

unfoldable pub postfix_onto : Expr → List Token → List Token
postfix_onto (literal n) rest = number n ∷ rest
postfix_onto unit_i rest = var "i" ∷ rest
postfix_onto (operate op a b) rest = postfix_onto a (postfix_onto b (binary op ∷ rest))
postfix_onto (positive a) rest = postfix_onto a (unary plus ∷ rest)
postfix_onto (negative a) rest = postfix_onto a (unary minus ∷ rest)

module _ (lib : Library) where
  unfoldable pub value : Expr → Complex
  value (literal n) = real n
  value unit_i = imaginary_unit
  value (operate op a b) = apply_binary lib op (value a) (value b)
  value (positive a) = value a
  value (negative a) = lib.neg (value a)

  pub run-postfix_onto :
      (e : Expr) (rest : List Token) (stack : List Complex)
      → run lib (postfix_onto e rest) stack ≡ run lib rest (value e ∷ stack)
  unfolding run step postfix_onto value
  run-postfix_onto (literal n) rest stack = refl
  run-postfix_onto unit_i rest stack = refl
  run-postfix_onto (operate op a b) rest stack =
      run-postfix_onto a (postfix_onto b (binary op ∷ rest)) stack
      ∙ run-postfix_onto b (binary op ∷ rest) (value a ∷ stack)
  run-postfix_onto (positive a) rest stack = run-postfix_onto a (unary plus ∷ rest) stack
  run-postfix_onto (negative a) rest stack = run-postfix_onto a (unary minus ∷ rest) stack

  -- An expression whose tokens in reverse Polish order are those of a tree of literals, `i`, binary
  -- operations and signs evaluates to the value of the tree.
  pub eval_complex-postfix :
      (expr : String) (tokens : List Token) (e : Expr)
      → lib.tokenize expr ≡ done tokens
      → lib.to_rpn tokens ≡ done (postfix_onto e [])
      → eval_complex lib expr ≡ done (value e)
  unfolding eval_complex run
  eval_complex-postfix expr tokens e h r = rw (eval_complex, h, r) (run-postfix_onto e [] [])

  -- Whether a token is a variable other than `i`.
  unfoldable pub is_unknown : Token → Bool
  is_unknown (var v) = not (str_eq v "i")
  is_unknown _ = false

  step_unknown :
      (t : Token) (stack after : List Complex) → is_unknown t ≡ true → step lib t stack ≢ done after
  unfolding is_unknown step
  step_unknown t stack after u h = ground (arith, u, h)

  run_unknown :
      (rpn : List Token) (stack : List Complex) (c : Complex)
      → any is_unknown rpn ≡ true
      → run lib rpn stack ≢ done c
  unfolding run
  run_unknown [] stack c u h = ground (arith, u)
  run_unknown (t ∷ rpn) stack c u h = elim (Outcome-cases (step lib t stack)) [
    | inl (after, e) ↦ elim (Bool-cases (is_unknown t)) [
      | inl yes' ↦ step_unknown t stack after yes' e
      | inr no' ↦ run_unknown rpn after c (ground (arith, u, no')) (ground (arith, h, e))
    ]
    | inr (msg, e) ↦ ground (arith, h, e)
  ]

  -- No result is computed for an expression with a variable other than `i`.
  pub eval_complex_unknown :
      (expr : String) (tokens rpn : List Token) (c : Complex)
      → lib.tokenize expr ≡ done tokens
      → lib.to_rpn tokens ≡ done rpn
      → any is_unknown rpn ≡ true
      → eval_complex lib expr ≢ done c
  unfolding eval_complex
  eval_complex_unknown expr tokens rpn c h r u = ground (arith, h, r, run_unknown rpn [] c u)
