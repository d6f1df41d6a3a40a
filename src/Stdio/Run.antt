-- ===== src/Stdio/Run.antt =====
-- How a run of C code ends: with a value, by writing past the end of an array or reading an array
-- that nothing was stored in (`fault`), or not within the fuel (`starved`).
use trabajos_sistemas_distri.Base.{refl, ◌≢◌}

pub data Run {ℓ} (A : Type ℓ) : Type ℓ where
  done : A → Run A
  fault : Run A
  starved : Run A

infixl 5 ◌>>=◌ ◌>>◌
abbrev pub ◌>>=◌ {ℓ κ} : {A : Type ℓ} {B : Type κ} → Run A → (A → Run B) → Run B
done a >>= f = f a
fault >>= f = fault
starved >>= f = starved

abbrev pub ◌>>◌ {ℓ κ} : {A : Type ℓ} {B : Type κ} → Run A → Run B → Run B
m >> k = m >>= λ _. k

pub >>=-ne-starved {ℓ κ} :
    {A : Type ℓ} {B : Type κ} (m : Run A) (f : A → Run B)
    → m ≢ starved
    → ((a : A) → f a ≢ starved)
    → (m >>= f) ≢ starved
>>=-ne-starved (done a) f hm hf = hf a
>>=-ne-starved fault f hm hf = λ e. cc
>>=-ne-starved starved f hm hf = absurd (hm refl)
