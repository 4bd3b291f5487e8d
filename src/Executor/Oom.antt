-- ===== src/Executor/Oom.antt =====
-- executor/resources.py: is an exception of a handler a GPU out-of-memory error? Its class is known by
-- its name; the test of the type that torch exports is not modelled.
use fine_tune_harness.Base.{String, Bool, false, ◌||◌, List, [], ◌∷◌, ◌==◌}
use fine_tune_harness.Base.Text.{codes, lower, contains}
use fine_tune_harness.Effects.{Exception, raised, message}

abbrev pub oom_markers : List String
oom_markers =
    "cuda out of memory" ∷ "cuda error: out of memory" ∷ "cublas_status_alloc_failed"
    ∷ "cudnn_status_alloc_failed" ∷ "outofmemoryerror" ∷ []

unfoldable pub any_marker : List String → String → Bool
unfolding codes lower contains
any_marker [] text = false
any_marker (m ∷ ms) text = contains (codes m) (lower text) || any_marker ms text

unfoldable pub is_oom_error : Exception → Bool
unfolding any_marker message
is_oom_error (raised class_name text) =
    class_name == "OutOfMemoryError"
    || (class_name == "CudaOutOfMemoryError" || any_marker oom_markers text)
is_oom_error e = any_marker oom_markers (message e)
