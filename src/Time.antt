-- ===== src/Time.antt =====
-- src/utils/TimeManager.cpp: the time of the library, which an application can replace. The clock
-- of the system is a parameter: the seconds and nanoseconds of clock_gettime.
use cpp_sparkplug.Prelude.{
  ℕ, ◌+◌, ◌*◌, ◌/◌, ◌%◌, ◌^◌, ◌≤◌, ◌<◌, Option, none, some, ◌≡◌, refl, arith, ◌⊎◌, inl, inr,
}

-- A TimeClient: the library's own, or one of the application, by a number.
pub data TimeClient : Type 0 where
  basic_manager : TimeClient
  application : ℕ → TimeClient

-- The static member `client`, NULL at first.
pub record TimeManager : Type 0 where
  pub client : Option TimeClient

abbrev pub unset : TimeManager
unset = record { client = none }

-- BasicTimeManager::getTime, in milliseconds
unfoldable pub basic_time : ℕ → ℕ → ℕ
basic_time seconds nanoseconds = (seconds * 1000 + nanoseconds / 1000000) % 2 ^ 64

-- getTime; `times` are the answers of the application's clients.
unfoldable pub get_time : (ℕ → ℕ) → ℕ → ℕ → TimeManager → ℕ
unfolding basic_time
get_time times seconds nanoseconds m = elim m.client [
  | none ↦ basic_time seconds nanoseconds
  | some c ↦ elim c [ basic_manager ↦ basic_time seconds nanoseconds | application i ↦ times i ]
]

unfoldable pub set_instance : Option TimeClient → TimeManager → TimeManager
set_instance c m = record m { client = c }

unfoldable pub reset : TimeManager → TimeManager
unfolding set_instance
reset = set_instance (some basic_manager)

-- After `reset`, or with NULL, the time is that of the system's clock, as before any call.
get_time-reset :
    (times : ℕ → ℕ) (seconds nanoseconds : ℕ) (m : TimeManager)
    → (get_time times seconds nanoseconds (reset m) ≡ get_time times seconds nanoseconds unset)
      × (get_time times seconds nanoseconds (set_instance none m)
          ≡ get_time times seconds nanoseconds unset)
unfolding get_time reset
get_time-reset times seconds nanoseconds m = (refl, refl)

-- The system's time does not go back while its clock does not, for 2 ^ 50 seconds.
basic_time_mono :
    (s n s' n' : ℕ)
    → n < 10 ^ 9
    → s' < 2 ^ 50
    → n' < 10 ^ 9
    → (s < s') ⊎ ((s ≡ s') × (n ≤ n'))
    → basic_time s n ≤ basic_time s' n'
unfolding basic_time
basic_time_mono s n s' n' h k h' (inl lt) = omega arith
basic_time_mono s n s' n' h k h' (inr (e, le)) = omega arith
