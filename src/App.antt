-- ===== src/App.antt =====
-- src/feishu_dify_gateway/app.py: the HTTP application. FastAPI chooses the endpoint of a request,
-- reads its body and runs the exception handlers.
pub mod Http
pub mod Endpoints
pub mod Middleware
pub mod Access
pub mod Served
