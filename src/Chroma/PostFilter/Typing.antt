-- ===== src/Chroma/PostFilter/Typing.antt =====
-- langchain-chromadb/src/postFilter.ts: what it is for a compiled operand to have its static type.
use query_plan_adapters.Base.{
  ◌≡◌, refl, Bool, true, false, Option, none, some, List, Text, if◌then◌else◌, arith,
}
use query_plan_adapters.Number.{Number}
use query_plan_adapters.Number.Whole.{is_whole}
use query_plan_adapters.Value.{Entries}
use query_plan_adapters.Chroma.Outcome.{Attempt, done, raise, ◌>>=◌, Failure, demand}
use query_plan_adapters.Chroma.PostFilter.Values.{CelValue, error, number, big, span}
use query_plan_adapters.Chroma.PostFilter.Types.{
  StaticType, int, double, ambiguous, attribute, duration, other, unknown,
}
use query_plan_adapters.Chroma.PostFilter.Compiler.{
  PostFilterFields, Env, Compiled, Context, find_type, binding, read_metadata, then_run,
  applied_one, applied_two, run_one, run_two,
}

-- The types that a number may have: any number is a double's value, or an attribute's, and only one
-- without a fraction is an int's, or an integral literal's.
abbrev pub may_be_number : Number → StaticType → Bool
may_be_number x int = is_whole x
may_be_number x ambiguous = is_whole x
may_be_number x double = true
may_be_number x attribute = true
may_be_number x unknown = true
may_be_number x _ = false

abbrev may_be_big : StaticType → Bool
may_be_big int = true
may_be_big unknown = true
may_be_big _ = false

abbrev may_be_timestamp : StaticType → Bool
may_be_timestamp StaticType.timestamp = true
may_be_timestamp unknown = true
may_be_timestamp _ = false

abbrev may_be_span : StaticType → Bool
may_be_span duration = true
may_be_span unknown = true
may_be_span _ = false

abbrev may_be_other : StaticType → Bool
may_be_other other = true
may_be_other attribute = true
may_be_other unknown = true
may_be_other _ = false

-- A value of a static type, or an error.
abbrev pub has_type : CelValue → StaticType → Bool
has_type error t = true
has_type (number x) t = may_be_number x t
has_type (big n) t = may_be_big t
has_type (CelValue.timestamp n) t = may_be_timestamp t
has_type (span n) t = may_be_span t
has_type _ t = may_be_other t

abbrev pub runs_to : Option CelValue → StaticType → Bool
runs_to none t = true
runs_to (some v) t = has_type v t

abbrev pub has_bound_type : CelValue → Option StaticType → Bool
has_bound_type v none = true
has_bound_type v (some t) = has_type v t

-- Each variable in scope holds a value of the type that it is declared with.
abbrev pub HasTypes : List (Text × StaticType) → Env → Type 0
HasTypes bindings env =
    (name : Text) → has_bound_type (binding name env) (find_type name bindings) ≡ true

-- The record has no number under a key that the mapper declares Boolean.
abbrev pub HasBooleans : PostFilterFields → Entries → Type 0
HasBooleans fields metadata =
    (name key : Text)
    → fields.is_boolean name ≡ done true
    → fields.metadata_key name ≡ done key
    → has_type (read_metadata metadata key) other ≡ true

abbrev pub IsTyped : Context → Compiled → Type 0
IsTyped ctx c =
    (env : Env)
    → HasTypes ctx.bindings env
    → HasBooleans ctx.fields env.metadata
    → runs_to (c.run env) c.type ≡ true

-- What is returned satisfies `P`.
abbrev pub Returns : {A : Type 0} → (A → Type 0) → Attempt A → Type 0
Returns P (done a) = P a
Returns P (raise failure) = Unit

pub Returns-bind :
    {A B : Type 0} (P : A → Type 0) (Q : B → Type 0) (call : Attempt A) (next : A → Attempt B)
    → Returns P call
    → ((a : A) → P a → Returns Q (next a))
    → Returns Q (call >>= next)
Returns-bind P Q (done a) next h k = k a h
Returns-bind P Q (raise failure) next h k = tt

-- A call of which nothing but its own result is known.
pub Returns-after :
    {A B : Type 0} (Q : B → Type 0) (call : Attempt A) (next : A → Attempt B)
    → ((a : A) → call ≡ done a → Returns Q (next a))
    → Returns Q (call >>= next)
Returns-after Q (done a) next k = k a refl
Returns-after Q (raise failure) next k = tt

-- A check before the rest of a call.
pub Returns-demand :
    {B : Type 0} (Q : B → Type 0) (test : Bool) (failure : Failure) (next : Unit {0} → Attempt B)
    → Returns Q (next tt)
    → Returns Q (demand test failure >>= next)
Returns-demand Q true failure next h = h
Returns-demand Q false failure next h = tt

pub has_type-unknown : (v : CelValue) → has_type v unknown ≡ true
has_type-unknown v = ground arith

pub runs_to-unknown : (o : Option CelValue) → runs_to o unknown ≡ true
runs_to-unknown none = refl
runs_to-unknown (some v) = has_type-unknown v

pub has_type_if :
    (t : StaticType) (test : Bool) (v w : CelValue)
    → has_type v t ≡ true
    → has_type w t ≡ true
    → has_type (if test then v else w) t ≡ true
has_type_if t true v w h k = h
has_type_if t false v w h k = k

pub then_run_typed :
    (t : StaticType) (o : Option CelValue) (next : CelValue → Option CelValue)
    → ((v : CelValue) → runs_to (next v) t ≡ true)
    → runs_to (then_run o next) t ≡ true
then_run_typed t none next h = refl
then_run_typed t (some v) next h = h v

-- An operator over one operand of type `s`.
pub run_one_typed :
    (s t : StaticType) (f : CelValue → Option CelValue) (c : Compiled) (env : Env)
    → runs_to (c.run env) s ≡ true
    → ((v : CelValue) → has_type v s ≡ true → runs_to (f v) t ≡ true)
    → runs_to (run_one f c env) t ≡ true
unfolding run_one
run_one_typed s t f c env h k = on_result (c.run env) h
  where
    on_result :
        (o : Option CelValue) → runs_to o s ≡ true → runs_to (then_run o (applied_one f)) t ≡ true
    on_result none h = refl
    on_result (some error) h = refl
    on_result (some v) h = k v h

-- An operator over two operands.
pub run_two_typed :
    (s u t : StaticType) (f : CelValue → CelValue → CelValue) (a b : Compiled) (env : Env)
    → runs_to (a.run env) s ≡ true
    → runs_to (b.run env) u ≡ true
    → ((v w : CelValue) → has_type v s ≡ true → has_type w u ≡ true → has_type (f v w) t ≡ true)
    → runs_to (run_two f a b env) t ≡ true
unfolding run_two
run_two_typed s u t f a b env h k each = on_results (a.run env) h
  where
    on_second :
        (v : CelValue) (p : Option CelValue)
        → has_type v s ≡ true
        → runs_to p u ≡ true
        → runs_to (then_run p (applied_one (λ w. some (f v w)))) t ≡ true
    on_second v none h k = refl
    on_second v (some error) h k = refl
    on_second v (some w) h k = each v w h k

    on_results :
        (o : Option CelValue)
        → runs_to o s ≡ true
        → runs_to (then_run o (λ v. applied_two f v (b.run env))) t ≡ true
    on_results none h = refl
    on_results (some error) h = refl
    on_results (some v) h = on_second v (b.run env) h k
