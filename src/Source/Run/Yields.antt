-- ===== src/Source/Run/Yields.antt =====
-- A run that stays inside its containers, with what holds of its result if it returns.
use muondetector_cluster.Prelude.{ℕ, ◌≡◌, ◌<◌, ◌^◌, refl, arith, Text, get_elem?-of_lt}
use muondetector_cluster.Message.{MessageParser, size}
use muondetector_cluster.Source.Run.{Run, done, invalid, overflow, fault, ◌>>=◌, field, Numbers}

abbrev pub Yields {ℓ} : {A : Type ℓ} → (A → Type 0) → Run A → Type 0
Yields P (done a) = P a
Yields P invalid = Unit
Yields P overflow = Unit
Yields P fault = ⊥

abbrev pub NoFault {ℓ} : {A : Type ℓ} → Run A → Type 0
NoFault {A} m = Yields {A = A} (λ a. Unit {0}) m

-- The rule for a sequence.
pub >>=-Yields {ℓ μ} :
    {A : Type ℓ} {B : Type μ} (P : B → Type 0) (m : Run A) (f : A → Run B)
    → NoFault m
    → ((a : A) → Yields P (f a))
    → Yields P (m >>= f)
>>=-Yields P (done a) f h k = k a
>>=-Yields P invalid f h k = tt
>>=-Yields P overflow f h k = tt
>>=-Yields P fault f h k = absurd h

-- The rule with what holds between the two.
pub >>=-Yields_with {ℓ μ} :
    {A : Type ℓ} {B : Type μ} (Q : A → Type 0) (P : B → Type 0) (m : Run A) (f : A → Run B)
    → Yields Q m
    → ((a : A) → Q a → Yields P (f a))
    → Yields P (m >>= f)
>>=-Yields_with Q P (done a) f q k = k a q
>>=-Yields_with Q P invalid f q k = tt
>>=-Yields_with Q P overflow f q k = tt
>>=-Yields_with Q P fault f q k = absurd q

-- The result, if there is one, is the one that is returned.
pub Yields-self : {A : Type 0} (m : Run A) → NoFault m → Yields (λ a. m ≡ done a) m
Yields-self (done a) h = refl
Yields-self invalid h = tt
Yields-self overflow h = tt
Yields-self fault h = h

-- What holds of the result if there is one.
abbrev pub IfDone {ℓ} : {A : Type ℓ} → (A → Type 0) → Run A → Type 0
IfDone P (done a) = P a
IfDone P invalid = Unit
IfDone P overflow = Unit
IfDone P fault = Unit

pub IfDone-imp {ℓ} :
    {A : Type ℓ} (P Q : A → Type 0) → ((a : A) → P a → Q a) → (m : Run A) → IfDone P m → IfDone Q m
IfDone-imp P Q f (done a) p = f a p
IfDone-imp P Q f invalid p = tt
IfDone-imp P Q f overflow p = tt
IfDone-imp P Q f fault p = tt

pub >>=-IfDone {ℓ μ} :
    {A : Type ℓ} {B : Type μ} (P : B → Type 0) (m : Run A) (f : A → Run B)
    → ((a : A) → IfDone P (f a))
    → IfDone P (m >>= f)
>>=-IfDone P (done a) f k = k a
>>=-IfDone P invalid f k = tt
>>=-IfDone P overflow f k = tt
>>=-IfDone P fault f k = tt

-- The rule with what holds between the two.
pub >>=-IfDone_with {ℓ μ} :
    {A : Type ℓ} {B : Type μ} (Q : A → Type 0) (P : B → Type 0) (m : Run A) (f : A → Run B)
    → IfDone Q m
    → ((a : A) → Q a → IfDone P (f a))
    → IfDone P (m >>= f)
>>=-IfDone_with Q P (done a) f q k = k a q
>>=-IfDone_with Q P invalid f q k = tt
>>=-IfDone_with Q P overflow f q k = tt
>>=-IfDone_with Q P fault f q k = tt

pub >>=-assoc {ℓ κ μ} :
    {A : Type ℓ} {B : Type κ} {C : Type μ} (m : Run A) (f : A → Run B) (g : B → Run C)
    → (m >>= f >>= g) ≡ (m >>= λ a. f a >>= g)
>>=-assoc (done a) f g = refl
>>=-assoc invalid f g = refl
>>=-assoc overflow f g = refl
>>=-assoc fault f g = refl

pub >>=-cong {ℓ κ} :
    {A : Type ℓ} {B : Type κ} (m : Run A) (f g : A → Run B)
    → ((a : A) → f a ≡ g a)
    → (m >>= f) ≡ (m >>= g)
>>=-cong (done a) f g h = h a
>>=-cong invalid f g h = refl
>>=-cong overflow f g h = refl
>>=-cong fault f g h = refl

pub field-NoFault : (m : MessageParser) (i : ℕ) → i < size m → NoFault (field m i)
unfolding field size
field-NoFault m i h = let (f, q) = get_elem?-of_lt m.fields i h in ground (arith, q)

-- The conversions of the standard library return or throw, and a hash is a `std::size_t`.
pub record Sound (std : Numbers) : Type 0 where
  pub stod_sound : (t : Text) → NoFault (std.stod t)
  pub stold_sound : (t : Text) → NoFault (std.stold t)
  pub stoul_sound : (base : ℕ) (t : Text) → NoFault (std.stoul base t)
  pub stoll_sound : (t : Text) → NoFault (std.stoll t)
  pub stoi_sound : (t : Text) → NoFault (std.stoi t)
  pub hash_sound : (t : Text) → std.hash t < 2 ^ 64

-- To split on a run and keep the equation.
pub data Cases {ℓ} {A : Type ℓ} (m : Run A) : Type ℓ where
  returns : (a : A) → m ≡ done a → Cases m
  throws_invalid : m ≡ invalid → Cases m
  throws_overflow : m ≡ overflow → Cases m
  faults : m ≡ fault → Cases m

pub Run-Cases {ℓ} : {A : Type ℓ} (m : Run A) → Cases m
Run-Cases (done a) = returns a refl
Run-Cases invalid = throws_invalid refl
Run-Cases overflow = throws_overflow refl
Run-Cases fault = faults refl
