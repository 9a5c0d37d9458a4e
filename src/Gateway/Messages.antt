-- ===== src/Gateway/Messages.antt =====
-- mas/runtime/provider_gateway.py: the messages of errors are never empty.
use v.Prelude.{String, true, ◌≡◌, refl, arith, if-elim}
use Prim.Native.String.{◌++◌, [], ◌∷◌}
use Prim.Native.String.append
use Prim.Native.String.compare
use v.Gateway.Types.{TextOps}
use v.Gateway.Errors.{is_set, normalize_error_type, safe_error_message}

longer : (s t : String) → is_set s ≡ true → is_set (s ++ t) ≡ true
longer [] t h = ground (arith, h)
longer (c ∷ s) t h = rw (append.cons c s t, compare.cons-nil) refl

pub safe_error_message-set :
    (ops : TextOps) (category provider model detail : String)
    → is_set (safe_error_message ops category provider model detail) ≡ true
unfolding safe_error_message
safe_error_message-set ops category provider model detail =
    if-elim (λ t. is_set t ≡ true) _ _ (is_set detail)
      (λ e. longer (begin ++ tail) _ (longer begin tail refl)) (λ e. longer begin tail refl)
  where
    begin : String
    begin = "Provider call failed: category="

    tail : String
    tail =
        normalize_error_type ops category ++ (", provider=" ++ (provider ++ (", model=" ++ model)))
