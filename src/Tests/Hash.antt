-- ===== src/Tests/Hash.antt =====
-- The connection hash at two definitions.
use mongo_hhvm_driver.Base.{◌+◌, ◌≤◌, ◌↔◌, some, ◌≡◌, refl, arith, length}
use mongo_hhvm_driver.CLib.{codes, print_nat, print_int}
use mongo_hhvm_driver.Hash.Create.{credentials, create_hash, create_hashed_password, hash_size}
use mongo_hhvm_driver.Hash.Split.{split_hash}
use mongo_hhvm_driver.Hash.RoundTrip.{IsSplittable, address_parts, filled, split_hash-create_hash}
use mongo_hhvm_driver.Hash.Size.{placeholder, create_hash_fits}
use mongo_hhvm_driver.Tests.Data.{toy_md5, member, lone}

create_hash-lone : create_hash toy_md5 4711 lone ≡ codes "localhost:27017;-;.;4711"
unfolding create_hash credentials print_int
create_hash-lone = refl

create_hash-member : create_hash toy_md5 4711 member ≡ codes "db1:27017;rs0;shop/app/95;4711"
unfolding create_hash credentials print_int create_hashed_password
create_hash-member = refl

member-IsSplittable : IsSplittable member
unfolding credentials
member-IsSplittable = record {
  host = omega arith;
  port = omega arith;
  name = omega arith;
  separated = omega arith;
}

split_hash-create_hash_example :
    split_hash (create_hash toy_md5 4711 member)
    ≡ some (filled toy_md5 4711 (address_parts member) (credentials member))
split_hash-create_hash_example =
    split_hash-create_hash toy_md5 4711 (omega arith) member member-IsSplittable

create_hash_fits_example :
    (length (create_hash toy_md5 4711 lone) + 1 ≤ hash_size toy_md5 4711 lone) ↔ (
      length (print_int lone.port)
        + length (print_nat 4711)
        + placeholder lone.repl_set_name
        + placeholder (credentials lone)
      ≤ 14)
create_hash_fits_example = create_hash_fits toy_md5 4711 lone
