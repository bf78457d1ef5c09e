-- ===== src/Products/Tests.antt =====
-- A product with no post, and clicks in the inventory.
use affiliate_platform_api.Prelude.{none, refl, some, ◌≡◌}
use affiliate_platform_api.Queue.Types.{QueueItem, queued}
use affiliate_platform_api.Products.{
  Product, get_score_quality, initial_inventory, toggle_column, warning,
}

abbrev lamp : Product
lamp = record {
  id = "p1";
  aliexpress_product_id = none;
  title = "Lamp";
  price = 1999;
  rating = 450;
  sales = 12;
  category = none;
  store_name = none;
  score = 5600;
  created_at = "2026-01-01";
}

abbrev post : QueueItem
post = record {
  id = "q1";
  title = none;
  content = "A lamp";
  status = queued;
  scheduled_at = none;
  published_at = none;
  channel_id = none;
  product_id = some "p1";
  image_url = none;
  button_text = none;
  button_url = none;
  created_at = "1";
  updated_at = "1";
  last_attempt = none;
  failure_reason = none;
  retry_count = 0;
}

lamp_quality : get_score_quality lamp.score ≡ ("Average", warning)
unfolding get_score_quality
lamp_quality = refl

pinned_column : toggle_column "product" initial_inventory ≡ initial_inventory
unfolding toggle_column
pinned_column = refl
