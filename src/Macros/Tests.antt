-- ===== src/Macros/Tests.antt =====
-- Two sets of tags in another order.
use iasql.Base.{[], ◌∷◌}
use iasql.Macros.{Tags}

abbrev old_tags : Tags
old_tags = ("env", "prod") ∷ ("team", "db") ∷ []

abbrev new_tags : Tags
new_tags = ("team", "db") ∷ ("env", "prod") ∷ []
