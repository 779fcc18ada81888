-- ===== src/Shell/Variables/Tests.antt =====
-- The variable "x" is set to the text "hi": once in a list of three variables, and once as the first.
use almorina_os.Prelude.{
  ℕ, ◌+◌, ◌≡◌, inr, refl, arith, true, false, ◌&&◌, some, [], ◌∷◌, ◌==◌, if◌then◌else◌,
}
use almorina_os.Cstring.{Memory}
use almorina_os.Heap.{Heap, MemSegment, malloc, malloc_loop, split}
use almorina_os.Shell.{isop, isdigit}
use almorina_os.Shell.Expression.{only_exp, has_digit}
use almorina_os.Shell.Variables.{ShellList, Variables, Number, string, clear_low, variables_push}
use almorina_os.Shell.Variables.Push.{Chain}
use almorina_os.Shell.Variables.Value.{
  Given, Copied, LosesLow, entry, variables_push-existing, variables_push-new,
}

abbrev segment : MemSegment
segment = record { len = 1000; free = true; next = 0 }

abbrev free_heap : Heap
free_heap = record { heap = 50000; free_seg = 50000; cell = λ _. segment }

-- "x" at 100, "hi" at 104, and the names "a" at 200, "x" at 204 and "b" at 208.
abbrev texts : Memory
texts q =
    if q == 100
    then 120
    else if q == 104
    then 104
    else if q == 105
    then 105
    else if q == 200
    then 97
    else if q == 204
    then 120
    else if q == 208
    then 98
    else 0

abbrev no_number : ℕ → Memory → Number
no_number p m = record { float_pattern = 0; int_pattern = 0; is_whole = true }

-- The heaps after the copies, the first of which has its header at `a`.
module _ (a : ℕ) (h : Heap) where
  abbrev one_copy : Heap
  one_copy = split a 2 h

  abbrev two_copies : Heap
  two_copies = split (a + 26) 2 one_copy

  -- The NUL behind the second copy clears the low byte of the size in the next header.
  abbrev clipped : Heap
  clipped = clear_low (a + 52) two_copies

  abbrev three_copies : Heap
  three_copies = split (a + 52) 3 clipped

is_text : (only_exp (104 ∷ 105 ∷ []) && has_digit (104 ∷ 105 ∷ [])) ≡ false
unfolding isop isdigit
is_text = refl

first_copy : malloc 6 2 free_heap ≡ some (50024, one_copy 50000 free_heap)
unfolding malloc malloc_loop split
first_copy = refl

second_copy : malloc 6 2 (one_copy 50000 free_heap) ≡ some (50050, two_copies 50000 free_heap)
unfolding malloc malloc_loop split
second_copy = refl

third_copy : malloc 6 3 (clipped 50000 free_heap) ≡ some (50076, three_copies 50000 free_heap)
unfolding malloc malloc_loop split
third_copy = refl

gives :
    Given 6 100 104
      (120 ∷ [])
      (104 ∷ 105 ∷ [])
      texts
      free_heap
      50024
      50050
      50076
      (three_copies 50000 free_heap)
gives = record {
  after_name = one_copy 50000 free_heap;
  after_names = two_copies 50000 free_heap;
  name_enough = omega arith;
  name_small = omega arith;
  text_enough = omega arith;
  text_small = omega arith;
  name_is = (refl, omega arith, refl);
  text_is = (refl, omega arith, (refl, omega arith, refl));
  no_exp = is_text;
  first = first_copy;
  second = second_copy;
  third = third_copy;
  first_name = inr (omega arith);
  second_name = inr (omega arith);
  first_text = inr (omega arith);
  second_text = inr (omega arith);
  third_text = inr (omega arith);
  third_second = inr (omega arith);
}

abbrev three_nodes : ℕ → ShellList
three_nodes p =
    if p == 300
    then record { next = 400; name = 200; data_at = 104; type = string }
    else if p == 400
    then record { next = 500; name = 204; data_at = 104; type = string }
    else record { next = 0; name = 208; data_at = 104; type = string }

abbrev three_variables : Variables
three_variables = record {
  shell_variables = 300;
  node = three_nodes;
  mem = texts;
  heap = free_heap;
}

variables_push-existing_example :
    (s' : Variables) × (variables_push no_number 6 100 104 three_variables ≡ some s')
    × Chain s'.node s'.shell_variables (300 ∷ 400 ∷ [])
    × (s'.node 400 ≡ entry 50050 50076)
    × Copied (120 ∷ []) (104 ∷ 105 ∷ []) 50050 50076 s'.mem
    × LosesLow 50079 (three_copies 50000 free_heap) s'.heap
variables_push-existing_example =
    variables_push-existing no_number 6 100 104 2 50024 50050 50076 400 (120 ∷ []) (104 ∷ 105 ∷ [])
      ((300, 97 ∷ []) ∷ []) ((500, 98 ∷ []) ∷ []) three_variables (three_copies 50000 free_heap)
      (omega arith)
      (
        refl,
        omega arith,
        ((refl, omega arith, refl), (omega arith, tt), omega arith),
        (
          refl,
          omega arith,
          ((refl, omega arith, refl), (omega arith, tt), omega arith),
          (refl, omega arith, ((refl, omega arith, refl), (omega arith, tt), omega arith), refl),
        ),
      )
      (refl, tt) (omega arith, tt) (omega arith) (omega arith, tt) gives

abbrev with_node : Heap
with_node = split 50000 32 free_heap

node_memory : malloc 6 32 free_heap ≡ some (50024, with_node)
unfolding malloc malloc_loop
node_memory = refl

first_copy' : malloc 6 2 with_node ≡ some (50080, one_copy 50056 with_node)
unfolding malloc malloc_loop split
first_copy' = refl

second_copy' : malloc 6 2 (one_copy 50056 with_node) ≡ some (50106, two_copies 50056 with_node)
unfolding malloc malloc_loop split
second_copy' = refl

third_copy' : malloc 6 3 (clipped 50056 with_node) ≡ some (50132, three_copies 50056 with_node)
unfolding malloc malloc_loop split
third_copy' = refl

gives' :
    Given 6 100 104
      (120 ∷ [])
      (104 ∷ 105 ∷ [])
      texts
      with_node
      50080
      50106
      50132
      (three_copies 50056 with_node)
gives' = record {
  after_name = one_copy 50056 with_node;
  after_names = two_copies 50056 with_node;
  name_enough = omega arith;
  name_small = omega arith;
  text_enough = omega arith;
  text_small = omega arith;
  name_is = (refl, omega arith, refl);
  text_is = (refl, omega arith, (refl, omega arith, refl));
  no_exp = is_text;
  first = first_copy';
  second = second_copy';
  third = third_copy';
  first_name = inr (omega arith);
  second_name = inr (omega arith);
  first_text = inr (omega arith);
  second_text = inr (omega arith);
  third_text = inr (omega arith);
  third_second = inr (omega arith);
}

abbrev last_variable : Variables
last_variable = record { shell_variables = 500; node = three_nodes; mem = texts; heap = free_heap }

variables_push-new_example :
    (s' : Variables) × (variables_push no_number 6 100 104 last_variable ≡ some s')
    × Chain s'.node s'.shell_variables (50024 ∷ 500 ∷ [])
    × ((s'.node 50024).name ≡ 50106)
    × ((s'.node 50024).data_at ≡ 50132)
    × Copied (120 ∷ []) (104 ∷ 105 ∷ []) 50106 50132 s'.mem
    × LosesLow 50135 (three_copies 50056 with_node) s'.heap
variables_push-new_example =
    variables_push-new no_number 6 100 104 2 50080 50106 50132 50024 (120 ∷ []) (104 ∷ 105 ∷ [])
      ((500, 98 ∷ []) ∷ []) last_variable with_node (three_copies 50056 with_node) (omega arith)
      (refl, omega arith, ((refl, omega arith, refl), (omega arith, tt), omega arith), refl)
      (refl, tt) (omega arith, tt) (omega arith) (omega arith, tt) node_memory gives'
