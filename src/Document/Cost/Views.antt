-- ===== src/Document/Cost/Views.antt =====
-- DocumentCostHandler.h: what the paths of a view add to the two costs.
use joda.Base.{ℕ, ◌+◌, ◌%◌, ◌^◌, List, [], ◌∷◌, ◌≡◌, fold, length, arith}
use joda.Base.Text.{Str}
use joda.Document.Cost.{Sizes, Costs, plus, add_view_path, add_view_paths}

-- The bytes of the paths.
abbrev pub path_bytes : List Str → ℕ
path_bytes [] = 0
path_bytes (path ∷ paths) = length path + path_bytes paths

module _ (sizes : Sizes) where
  fold-path_bytes :
      (paths : List Str) (s : Costs)
      → let t = fold (add_view_path sizes) s paths in
        (t.cost % 2 ^ 64 ≡ (s.cost + path_bytes paths) % 2 ^ 64)
        × (t.theoretical_cost % 2 ^ 64 ≡ (s.theoretical_cost + path_bytes paths) % 2 ^ 64)
  fold-path_bytes [] s = (omega arith, omega arith)
  fold-path_bytes (path ∷ paths) s =
      let r = fold-path_bytes paths (add_view_path sizes s path) in
      (omega (arith, r.0), omega (arith, r.1))

  -- For all costs and all paths of a view, addViewPaths adds to both costs the size of a vector, one
  -- for every path and the bytes of the paths, modulo 2^64.
  pub add_view_paths-path_bytes :
      (s : Costs) (paths : List Str)
      → let t = add_view_paths sizes s paths in
        (t.cost % 2 ^ 64 ≡ (s.cost + sizes.vector_size + length paths + path_bytes paths) % 2 ^ 64)
        × (t.theoretical_cost % 2 ^ 64
            ≡ (s.theoretical_cost + sizes.vector_size + length paths + path_bytes paths) % 2 ^ 64)
  unfolding add_view_paths
  add_view_paths-path_bytes s paths =
      let r = fold-path_bytes paths (record {
        cost = plus s.cost (sizes.vector_size + length paths);
        theoretical_cost = plus s.theoretical_cost (sizes.vector_size + length paths);
      }) in
      (omega (arith, r.0), omega (arith, r.1))
