-- ===== src/App/Names.antt =====
-- core/core.cc: the names of the enumerations on the command line.
use Prim.Native.String.{String}
use text.Mathlib.Text.{◌==◌ as str_eq}
use task_bench.Base.{ℕ, ◌≡◌, refl, Option, some, none, List, [], ◌∷◌, ◌==◌, if◌then◌else◌}
use task_bench.Graph.{
  DependenceType, KernelType, DistType, trivial, no_comm, stencil_1d, stencil_1d_periodic, dom,
  tree, fft, all_to_all, nearest, spread, random_nearest, random_spread, empty, busy_wait,
  memory_bound, compute_dgemm, memory_daxpy, compute_bound, compute_bound2, io_bound,
  load_imbalance, compute_memory, dist_imbalance, uniform, normal, gamma, cauchy,
}

abbrev pub dtype_by_name : List (String × DependenceType)
dtype_by_name =
    ("trivial", trivial)
    ∷ ("no_comm", no_comm)
    ∷ ("stencil_1d", stencil_1d)
    ∷ ("stencil_1d_periodic", stencil_1d_periodic)
    ∷ ("dom", dom)
    ∷ ("tree", tree)
    ∷ ("fft", fft)
    ∷ ("all_to_all", all_to_all)
    ∷ ("nearest", nearest)
    ∷ ("spread", spread)
    ∷ ("random_nearest", random_nearest)
    ∷ ("random_spread", random_spread)
    ∷ []

abbrev pub ktype_by_name : List (String × KernelType)
ktype_by_name =
    ("empty", empty)
    ∷ ("busy_wait", busy_wait)
    ∷ ("memory_bound", memory_bound)
    ∷ ("compute_dgemm", compute_dgemm)
    ∷ ("memory_daxpy", memory_daxpy)
    ∷ ("compute_bound", compute_bound)
    ∷ ("compute_bound2", compute_bound2)
    ∷ ("io_bound", io_bound)
    ∷ ("load_imbalance", load_imbalance)
    ∷ ("dist_imbalance", dist_imbalance)
    ∷ ("compute_and_mem", compute_memory)
    ∷ []

abbrev pub disttype_by_name : List (String × DistType)
disttype_by_name =
    ("uniform", uniform) ∷ ("normal", normal) ∷ ("gamma", gamma) ∷ ("cauchy", cauchy) ∷ []

-- `find` of a map with text keys.
unfoldable pub find_name : {A : Type 0} → String → List (String × A) → Option A
find_name name [] = none
find_name name ((key, value) ∷ rest) = if str_eq name key then some value else find_name name rest

-- The values of the enumerations, by which a map with such keys compares them.
unfoldable pub dtype_value : DependenceType → ℕ
dtype_value trivial = 0
dtype_value no_comm = 1
dtype_value stencil_1d = 2
dtype_value stencil_1d_periodic = 3
dtype_value dom = 4
dtype_value tree = 5
dtype_value fft = 6
dtype_value all_to_all = 7
dtype_value nearest = 8
dtype_value spread = 9
dtype_value random_nearest = 10
dtype_value random_spread = 11

unfoldable pub ktype_value : KernelType → ℕ
ktype_value empty = 0
ktype_value busy_wait = 1
ktype_value memory_bound = 2
ktype_value compute_dgemm = 3
ktype_value memory_daxpy = 4
ktype_value compute_bound = 5
ktype_value compute_bound2 = 6
ktype_value io_bound = 7
ktype_value load_imbalance = 8
ktype_value compute_memory = 9
ktype_value dist_imbalance = 10

-- `at` of the map that `make_name_by_dtype` or `make_name_by_ktype` turns round. No value has two
-- names, so no assignment there overwrites another.
name_at : {A : Type 0} → (A → ℕ) → A → List (String × A) → Option String
name_at index a [] = none
name_at index a ((name, value) ∷ rest) =
    if index a == index value then some name else name_at index a rest

unfoldable pub name_by_dtype : DependenceType → Option String
unfolding name_at dtype_value
name_by_dtype t = name_at dtype_value t dtype_by_name

unfoldable pub name_by_ktype : KernelType → Option String
unfolding name_at ktype_value
name_by_ktype t = name_at ktype_value t ktype_by_name

-- Each dependence type has a name, and `-type` with that name gives it back.
pub find_name-name_by_dtype :
    (t : DependenceType)
    → (name : String) × (name_by_dtype t ≡ some name) × (find_name name dtype_by_name ≡ some t)
unfolding name_by_dtype find_name
find_name-name_by_dtype trivial = (_, refl, refl)
find_name-name_by_dtype no_comm = (_, refl, refl)
find_name-name_by_dtype stencil_1d = (_, refl, refl)
find_name-name_by_dtype stencil_1d_periodic = (_, refl, refl)
find_name-name_by_dtype dom = (_, refl, refl)
find_name-name_by_dtype tree = (_, refl, refl)
find_name-name_by_dtype fft = (_, refl, refl)
find_name-name_by_dtype all_to_all = (_, refl, refl)
find_name-name_by_dtype nearest = (_, refl, refl)
find_name-name_by_dtype spread = (_, refl, refl)
find_name-name_by_dtype random_nearest = (_, refl, refl)
find_name-name_by_dtype random_spread = (_, refl, refl)

-- Each kernel type has a name, and `-kernel` with that name gives it back.
pub find_name-name_by_ktype :
    (t : KernelType)
    → (name : String) × (name_by_ktype t ≡ some name) × (find_name name ktype_by_name ≡ some t)
unfolding name_by_ktype find_name
find_name-name_by_ktype empty = (_, refl, refl)
find_name-name_by_ktype busy_wait = (_, refl, refl)
find_name-name_by_ktype memory_bound = (_, refl, refl)
find_name-name_by_ktype compute_dgemm = (_, refl, refl)
find_name-name_by_ktype memory_daxpy = (_, refl, refl)
find_name-name_by_ktype compute_bound = (_, refl, refl)
find_name-name_by_ktype compute_bound2 = (_, refl, refl)
find_name-name_by_ktype io_bound = (_, refl, refl)
find_name-name_by_ktype load_imbalance = (_, refl, refl)
find_name-name_by_ktype compute_memory = (_, refl, refl)
find_name-name_by_ktype dist_imbalance = (_, refl, refl)
