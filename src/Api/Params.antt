-- ===== src/Api/Params.antt =====
-- The parameters of `GET /content/packages`, as `ServerInterfaceWrapper.GetContentPackages` reads them.
use inventory_access_poc.Prelude.{Bool, Option, ◌++◌}
use inventory_access_poc.Prelude.Int.{ℤ}
use inventory_access_poc.Prelude.Bytes.{Text, codes}
use inventory_access_poc.Errors.{Result, ok, err, panic, wrap}
use inventory_access_poc.Router.{Query}
use inventory_access_poc.Api.{Libraries}

pub record GetContentPackagesParams : Type 0 where
  pub page : Option ℤ
  pub matches : Option Text
  pub patches_available : Option Bool
  pub tag : Option Text
  pub sort_key : Option Text
  pub sort_order : Option Bool

-- An error becomes an `InvalidParamFormatError`, whose text is this one.
abbrev checked : {A : Type 0} → Text → Result A → Result A
checked name r = wrap (codes "Invalid format for parameter " ++ name) r

abbrev and_then : {A B : Type 0} → Result A → (A → Result B) → Result B
and_then (ok a) f = f a
and_then (err e) f = err e
and_then panic f = panic

unfoldable pub bind_params : Libraries → Query → Result GetContentPackagesParams
bind_params lib q = and_then (checked (codes "page") (lib.bind_int (codes "page") q)) λ page.
    and_then (checked (codes "matches") (lib.bind_text (codes "matches") q)) λ matches.
      and_then (checked (codes "patches_available") (lib.bind_bool (codes "patches_available") q))
        λ available. and_then (checked (codes "tag") (lib.bind_text (codes "tag") q)) λ tag.
          and_then (checked (codes "sort_key") (lib.bind_text (codes "sort_key") q)) λ key.
            and_then (checked (codes "sort_order") (lib.bind_bool (codes "sort_order") q)) λ order.
              ok (record {
                page = page;
                matches = matches;
                patches_available = available;
                tag = tag;
                sort_key = key;
                sort_order = order;
              })
