-- ===== src/Upload/Tests.antt =====
-- A run of lib/ag-solo/upload-contract.js.
use cosmic_swingset.Upload.{
  parse_name_path, install, set_upload, resolve_ready, Answers, collect, contracts, finish, upload,
}
use cosmic_swingset.Upload.Named.{saved, to_save, upload_names, then_ready, upload_once}
use cosmic_swingset.Base.{
  length, ◌==◌, nat_eq, string_eq, list_eq, ℕ, ◌≡◌, refl, true, false, some, List, [], ◌∷◌,
}
use cosmic_swingset.Base.Text.{Text, codes}

-- A chain that has one target, and gives contracts the length of their source.
abbrev chain : Answers ℕ
chain = record {
  is_ready = false;
  has_target = λ t. t == codes "zoe";
  bundle = λ path. some path;
  install_result = λ target source. some (length source);
}

abbrev arguments : List Text
arguments = codes "zoe-refund=refund.js" ∷ codes "host-bot=bot.js" ∷ []

upload_names_example :
    saved (upload chain true (codes "zoe-swap=swap.js" ∷ arguments)).actions
    ≡ to_save chain (codes "zoe-swap=swap.js" ∷ arguments)
unfolding upload collect parse_name_path finish contracts
upload_names_example = upload_names chain true (codes "zoe-swap=swap.js") arguments refl refl

upload_once_example :
    (upload (then_ready (upload chain true arguments).actions chain) true arguments).actions ≡ []
unfolding upload collect parse_name_path finish contracts
upload_once_example = upload_once chain arguments refl

sent :
    (upload chain true arguments).actions
    ≡ install (codes "zoe") (codes "refund.js")
      ∷ set_upload (codes "zoe-refund") 9
      ∷ resolve_ready
      ∷ []
unfolding upload collect parse_name_path finish contracts
sent = refl
